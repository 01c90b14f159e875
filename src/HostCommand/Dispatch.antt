-- ===== src/HostCommand/Dispatch.antt =====
-- The choice of a handler in common/host_command.c.
use chromium_ec.Common.{
  ℕ, ◌≡◌, ◌≢◌, refl, ap, ◌∙◌, true, false, List, [], ◌∷◌, ◌++◌, none, some, arith, ◌==◌,
  if◌then◌else◌,
}
use chromium_ec.Common.Bits.{test_bit, nonzero-pow_and}
use chromium_ec.HostCommand.{HostCommand, Args, find_host_command, process, dispatch}

-- No entry has this number.
abbrev pub HasNone : ℕ → List HostCommand → Type 0
HasNone n [] = Unit
HasNone n (c ∷ cs) = (c.number ≢ n) × HasNone n cs

find-HasNone : (n : ℕ) (cs : List HostCommand) → HasNone n cs → find_host_command n cs ≡ none
unfolding find_host_command
find-HasNone n [] h = refl
find-HasNone n (c ∷ cs) h =
    let other : (n == c.number) ≡ false = ground (arith, h.0) in rw other (find-HasNone n cs h.1)

find-append :
    (n : ℕ) (cs : List HostCommand) (c : HostCommand) (ds : List HostCommand)
    → HasNone n cs
    → c.number ≡ n
    → find_host_command n (cs ++ (c ∷ ds)) ≡ some c
unfolding find_host_command
find-append n [] c ds h e = let this : (n == c.number) ≡ true = ground (arith, e) in rw this refl
find-append n (b ∷ cs) c ds h e =
    let other : (n == b.number) ≡ false = ground (arith, h.0) in
    rw other (find-append n cs c ds h.1 e)

-- A command that no entry of the table has is refused with EC_RES_INVALID_COMMAND. Where `c` is the
-- first entry of the command, its handler runs and gives the status and the response if the version
-- of the command is among those of the mask of `c`; any other version is refused with
-- EC_RES_INVALID_VERSION. Either refusal has no data.
pub process-HasNone :
    (args : Args) (cs : List HostCommand) (c : HostCommand) (ds : List HostCommand)
    → HasNone args.command cs
    → c.number ≡ args.command
    → (process cs args ≡ (1, []))
      × (process (cs ++ (c ∷ ds)) args
          ≡ (if test_bit c.version_mask args.version then c.handler args else (6, [])))
process-HasNone args cs c ds h e = (
  ap (λ o. dispatch o args) (find-HasNone args.command cs h),
  ap (λ o. dispatch o args) (find-append args.command cs c ds h e)
      ∙ ap (λ b. if b then c.handler args else (6, []))
          (nonzero-pow_and c.version_mask args.version),
)
