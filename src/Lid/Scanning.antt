-- ===== src/Lid/Scanning.antt =====
-- The keyboard is scanned while the lid is open: common/lid_switch.c over common/keyboard_scan.c.
use chromium_ec.Common.{
  ℕ, ◌^◌, ◌<◌, ◌≡◌, ◌≢◌, ◌∙◌, ap, refl, Bool, true, false, not, ◌&&◌, ◌||◌, List, [], ◌∷◌, arith,
  if◌then◌else◌,
}
use chromium_ec.Common.Bits.{
  test_bit, test_bit-clear, test_bit-set, test_bit-bit_and, test_bit-bit_or, test_bit-complement,
  complement,
}
use chromium_ec.KeyScan.{State, scan_enable}
use chromium_ec.Lid.{
  Lid, Event, deferred, open_command, close_command, enable, step, run, init, switch_open,
  switch_close, change_deferred, keyboard_lid_change,
}

-- The host events alternate, and the last one says whether the lid is open.
abbrev pub Told : List Bool → Bool → Type 0
Told [] is_open = Unit
Told (e ∷ sent) is_open = (e ≡ is_open) × Told sent (not is_open)

pub record IsSynced (l : Lid) : Type 0 where
  pub told : Told l.sent l.is_open
  pub scanning : l.sent ≢ [] → test_bit l.scanner.disable_scanning_mask 0 ≡ not l.is_open

-- What keyboard_scan_enable does to the bit of the lid.
or_false : (b : Bool) → (b || false) ≡ b
or_false true = refl
or_false false = refl

and_not : (b : Bool) → (b && not true) ≡ false
and_not true = refl
and_not false = refl

or_true : (b : Bool) → (b || true) ≡ true
or_true true = refl
or_true false = refl

and_true : (b : Bool) → (b && true) ≡ b
and_true true = refl
and_true false = refl

enable-lid :
    (on : Bool) (s : State) → test_bit (keyboard_lid_change on s).disable_scanning_mask 0 ≡ not on
unfolding keyboard_lid_change scan_enable
enable-lid true s =
    test_bit-clear 32 s.disable_scanning_mask 0 0 (omega arith) (omega arith)
    ∙ and_not (test_bit s.disable_scanning_mask 0)
enable-lid false s =
    test_bit-set s.disable_scanning_mask 0 0 ∙ or_true (test_bit s.disable_scanning_mask 0)

enable-other :
    (on : Bool) (mask : ℕ) (s : State)
    → mask < 2 ^ 32
    → test_bit mask 0 ≡ false
    → test_bit (scan_enable on mask s).disable_scanning_mask 0 ≡ test_bit s.disable_scanning_mask 0
unfolding scan_enable
enable-other true mask s h off =
    test_bit-bit_and s.disable_scanning_mask (complement 32 mask) 0
    ∙ ap (λ b. test_bit s.disable_scanning_mask 0 && b)
        (test_bit-complement 32 mask 0 h (omega arith) ∙ ap not off)
    ∙ and_true (test_bit s.disable_scanning_mask 0)
enable-other false mask s h off =
    test_bit-bit_or s.disable_scanning_mask mask 0
    ∙ ap (λ b. test_bit s.disable_scanning_mask 0 || b) off
    ∙ or_false (test_bit s.disable_scanning_mask 0)

-- A test of the code, with what it says in each branch.
if-IsSynced :
    (b : Bool) (x y : Lid)
    → (b ≡ true → IsSynced x)
    → (b ≡ false → IsSynced y)
    → IsSynced (if b then x else y)
if-IsSynced true x y h k = h refl
if-IsSynced false x y h k = k refl

switch_open-IsSynced : (l : Lid) → IsSynced l → IsSynced (switch_open l)
unfolding switch_open
switch_open-IsSynced l s =
    if-IsSynced l.is_open l _ (λ already. s)
      (λ closed. record {
        told = (refl, rw closed at s.told);
        scanning = λ some_sent. enable-lid true l.scanner;
      })

switch_close-IsSynced : (l : Lid) → IsSynced l → IsSynced (switch_close l)
unfolding switch_close
switch_close-IsSynced l s =
    if-IsSynced (not l.is_open) l _ (λ already. s)
      (λ opened.
        let open_now : l.is_open ≡ true = ground (arith, opened) in
        record {
          told = (refl, rw open_now at s.told);
          scanning = λ some_sent. enable-lid false l.scanner;
        })

-- The calls of keyboard_scan_enable by other modules have masks of their own.
abbrev pub AllOther : List Event → Type 0
AllOther [] = Unit
AllOther (enable on mask ∷ events) = (mask < 2 ^ 32) × (test_bit mask 0 ≡ false) × AllOther events
AllOther (deferred raw_open ∷ events) = AllOther events
AllOther (open_command ∷ events) = AllOther events
AllOther (close_command ∷ events) = AllOther events

change_deferred-IsSynced :
    (raw_open : Bool) (l : Lid) → IsSynced l → IsSynced (change_deferred raw_open l)
unfolding change_deferred
change_deferred-IsSynced true l s =
    if-IsSynced l.is_open l _ (λ same. s) (λ other. switch_open-IsSynced l s)
change_deferred-IsSynced false l s =
    if-IsSynced (not l.is_open) l _ (λ same. s) (λ other. switch_close-IsSynced l s)

run-IsSynced_from :
    (events : List Event) (l : Lid) → AllOther events → IsSynced l → IsSynced (run events l)
unfolding run step
run-IsSynced_from [] l h s = s
run-IsSynced_from (deferred raw_open ∷ events) l h s =
    run-IsSynced_from events (change_deferred raw_open l) h (change_deferred-IsSynced raw_open l s)
run-IsSynced_from (open_command ∷ events) l h s =
    run-IsSynced_from events (switch_open l) h (switch_open-IsSynced l s)
run-IsSynced_from (close_command ∷ events) l h s =
    run-IsSynced_from events (switch_close l) h (switch_close-IsSynced l s)
run-IsSynced_from (enable on mask ∷ events) l (word, off, h) s =
    run-IsSynced_from events (record l { scanner = scan_enable on mask l.scanner }) h
      (record {
        told = s.told;
        scanning = λ some_sent. enable-other on mask l.scanner word off ∙ s.scanning some_sent;
      })

-- After any changes of the lid and any calls of keyboard_scan_enable with masks that leave out the
-- bit of the lid: the host events for the lid alternate and the last one says how it is; and once
-- there has been one, that bit of the mask disables scanning exactly while the lid is closed.
pub run-Scanning :
    (raw_open : Bool) (scanner : State) (events : List Event)
    → AllOther events
    → IsSynced (run events (init raw_open scanner))
unfolding init
run-Scanning raw_open scanner events h =
    run-IsSynced_from events (init raw_open scanner) h
      (record { told = tt; scanning = λ some_sent. absurd (some_sent refl) })
