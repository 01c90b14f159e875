-- ===== src/HostEvent/Sync.antt =====
-- The copies of the pending events agree, and what the host sees is what the masks say of them.
use chromium_ec.Common.{
  nonzero, ℕ, zero, suc, ◌+◌, ◌^◌, ◌<◌, ◌≡◌, ◌∙◌, sym, subst, true, false, bit_and, List, [], ◌∷◌,
  arith, Bool-cases, inl, inr,
}
use chromium_ec.Common.Bits.{bit_and-lt, bit_or-lt, complement}
use chromium_ec.HostEvent.{
  MaskType, smi, sci, wake, HostEvents, update_wake, update_status, set_state, set_mask, set_events,
  set_single_event, clear_events, clear_events_b, throttle_cpu, query_from, query_state, any_mask,
  Call, set, clear, clear_b, mask, throttle, query, initialise, lpc_init, call, run, event_mask,
}

abbrev pub IsWord : ℕ → Type 0
IsWord x = x < 2 ^ 32

-- What the host sees, given the pending events and the masks.
pub record IsShown (h : HostEvents) : Type 0 where
  pub shown_smi : h.st_smi ≡ nonzero (bit_and h.host_events h.smi_mask)
  pub shown_sci : h.st_sci ≡ nonzero (bit_and h.host_events h.sci_mask)
  pub shown_map : h.memmap ≡ h.host_events
  pub shown_wake : h.wake_l ≡ update_wake (bit_and h.host_events h.wake_mask)

pub record IsSynced (h : HostEvents) : Type 0 where
  pub same : h.host_events ≡ h.events
  pub word : IsWord h.events
  pub word_b : IsWord h.events_copy_b
  pub shown : h.init_done ≡ true → IsShown h

pub update_status-IsShown : (h : HostEvents) → h.init_done ≡ true → IsShown (update_status h)
unfolding update_status
update_status-IsShown h e = ground arith

-- `set_state` keeps the statics of host_event_commands.c and the masks.
pub record Kept (h h' : HostEvents) : Type 0 where
  pub kept_events : h'.events ≡ h.events
  pub kept_b : h'.events_copy_b ≡ h.events_copy_b
  pub kept_smi : h'.smi_mask ≡ h.smi_mask
  pub kept_sci : h'.sci_mask ≡ h.sci_mask
  pub kept_wake : h'.wake_mask ≡ h.wake_mask
  pub kept_init : h'.init_done ≡ h.init_done

pub update_status-Kept : (h : HostEvents) → Kept h (update_status h)
unfolding update_status
update_status-Kept h = ground arith

pub host_events-update_status : (h : HostEvents) → (update_status h).host_events ≡ h.host_events
unfolding update_status
host_events-update_status h = ground arith

pub set_state-Kept : (e : ℕ) (h : HostEvents) → Kept h (set_state e h)
unfolding set_state
set_state-Kept e h = ground (arith, update_status-Kept (record h { host_events = e }))

pub host_events-set_state : (e : ℕ) (h : HostEvents) → (set_state e h).host_events ≡ e
unfolding set_state
host_events-set_state e h = ground (arith, host_events-update_status (record h { host_events = e }))

pub set_state-IsShown :
    (e : ℕ) (h : HostEvents) → h.init_done ≡ true → IsShown h → IsShown (set_state e h)
unfolding set_state
set_state-IsShown e h i s = ground (arith, update_status-IsShown (record h { host_events = e }) i)

-- Writing new events and passing them on to `set_state` keeps the copies in step.
set_state-IsSynced :
    (e b : ℕ) (h : HostEvents)
    → IsWord e
    → IsWord b
    → IsSynced h
    → IsSynced (set_state e (record h { events = e; events_copy_b = b }))
set_state-IsSynced e b h we wb s =
    let h' : HostEvents = record h { events = e; events_copy_b = b } in
    let k = set_state-Kept e h' in
    record {
      same = host_events-set_state e h' ∙ sym k.kept_events;
      word = subst (λ x. IsWord x) (sym k.kept_events) we;
      word_b = subst (λ x. IsWord x) (sym k.kept_b) wb;
      shown = λ i.
          let i' : h.init_done ≡ true = sym k.kept_init ∙ i in
          let p = s.shown i' in
          set_state-IsShown e h' i' (record {
            shown_smi = p.shown_smi;
            shown_sci = p.shown_sci;
            shown_map = p.shown_map;
            shown_wake = p.shown_wake;
          });
    }

pub set_events-IsSynced :
    (m : ℕ) {h : HostEvents} → IsWord m → IsSynced h → IsSynced (set_events m h)
unfolding set_events
set_events-IsSynced m {h} w s =
    set_state-IsSynced _ _ h (bit_or-lt 32 h.events m s.word w)
      (bit_or-lt 32 h.events_copy_b m s.word_b w) s

pub clear_events-IsSynced : (m : ℕ) {h : HostEvents} → IsSynced h → IsSynced (clear_events m h)
unfolding clear_events
clear_events-IsSynced m {h} s =
    set_state-IsSynced _ h.events_copy_b h (bit_and-lt 32 h.events (complement 32 m) s.word)
      s.word_b s

clear_events_b-IsSynced : (m : ℕ) {h : HostEvents} → IsSynced h → IsSynced (clear_events_b m h)
unfolding clear_events_b
clear_events_b-IsSynced m {h} s = record {
  same = s.same;
  word = s.word;
  word_b = bit_and-lt 32 h.events_copy_b (complement 32 m) s.word_b;
  shown = λ i.
      let p = s.shown i in
      record {
        shown_smi = p.shown_smi;
        shown_sci = p.shown_sci;
        shown_map = p.shown_map;
        shown_wake = p.shown_wake;
      };
}

-- Any change of the masks that `update_status` follows.
update_status-IsSynced :
    (h : HostEvents)
    → h.host_events ≡ h.events
    → IsWord h.events
    → IsWord h.events_copy_b
    → IsSynced (update_status h)
update_status-IsSynced h e w wb =
    let k = update_status-Kept h in
    record {
      same = host_events-update_status h ∙ e ∙ sym k.kept_events;
      word = subst (λ x. IsWord x) (sym k.kept_events) w;
      word_b = subst (λ x. IsWord x) (sym k.kept_b) wb;
      shown = λ i. update_status-IsShown h (sym k.kept_init ∙ i);
    }

set_mask-IsSynced : (t : MaskType) (m : ℕ) {h : HostEvents} → IsSynced h → IsSynced (set_mask t m h)
unfolding set_mask
set_mask-IsSynced smi m s = update_status-IsSynced _ s.same s.word s.word_b
set_mask-IsSynced sci m s = update_status-IsSynced _ s.same s.word s.word_b
set_mask-IsSynced wake m s = update_status-IsSynced _ s.same s.word s.word_b

throttle_cpu-IsSynced : (t : ℕ) {h : HostEvents} → IsSynced h → IsSynced (throttle_cpu t h)
unfolding throttle_cpu set_single_event
throttle_cpu-IsSynced t {h} s = elim (Bool-cases (nonzero t)) [
  | inl on ↦ rw on (set_events-IsSynced (event_mask 18) (omega arith) s)
  | inr off ↦ rw off (set_events-IsSynced (event_mask 19) (omega arith) s)
]

query_from-IsSynced :
    (any rounds i : ℕ) {h : HostEvents} → IsSynced h → IsSynced (query_from any rounds i h).1
unfolding query_from
query_from-IsSynced any zero i s = s
query_from-IsSynced any (suc rounds) i {h} s =
    let cleared = clear_events-IsSynced (2 ^ i) s in
    ground (
      arith,
      cleared,
      query_from-IsSynced any rounds (i + 1) s,
      query_from-IsSynced any rounds (i + 1) cleared,
    )

-- The words that the calls pass are uint32_t.
abbrev pub CallFits : Call → Type 0
CallFits (set m) = IsWord m
CallFits (clear m) = IsWord m
CallFits (clear_b m) = IsWord m
CallFits (mask t m) = IsWord m
CallFits (throttle t) = IsWord t
CallFits query = Unit
CallFits initialise = Unit

abbrev pub CallsFit : List Call → Type 0
CallsFit [] = Unit
CallsFit (c ∷ cs) = CallFits c × CallsFit cs

pub call-IsSynced : (c : Call) {h : HostEvents} → CallFits c → IsSynced h → IsSynced (call c h)
unfolding call
call-IsSynced (set m) w s = set_events-IsSynced m w s
call-IsSynced (clear m) w s = clear_events-IsSynced m s
call-IsSynced (clear_b m) w s = clear_events_b-IsSynced m s
call-IsSynced (mask t m) w s = set_mask-IsSynced t m s
call-IsSynced (throttle t) w s = throttle_cpu-IsSynced t s
call-IsSynced query {h} w s = unfold query_state in query_from-IsSynced (any_mask h) 32 0 s
call-IsSynced initialise {h} w s =
    unfold lpc_init in update_status-IsSynced (record h { init_done = true }) s.same s.word s.word_b

run-IsSynced_from :
    (cs : List Call) {h : HostEvents} → CallsFit cs → IsSynced h → IsSynced (run cs h)
unfolding run
run-IsSynced_from [] w s = s
run-IsSynced_from (c ∷ cs) w s = run-IsSynced_from cs w.1 (call-IsSynced c w.0 s)

-- From a state in which the LPC module is not initialised, the two copies of the pending events are
-- the same and the words have 32 bits, whatever the host would see: after any calls, among them the
-- end of lpc_init at any time, both files hold the same pending events, all words stay within 32
-- bits, and if the LPC module is initialised by then, the SMI and SCI status bits, the mapped
-- memory and the wake line are exactly what the pending events and the masks give.
pub run-IsSynced :
    (cs : List Call) (h : HostEvents)
    → CallsFit cs
    → h.init_done ≡ false
    → h.host_events ≡ h.events
    → IsWord h.events
    → IsWord h.events_copy_b
    → IsSynced (run cs h)
run-IsSynced cs h w off same word word_b =
    run-IsSynced_from cs w
      (record { same = same; word = word; word_b = word_b; shown = λ on. ground (arith, off, on) })
