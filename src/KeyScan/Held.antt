-- ===== src/KeyScan/Held.antt =====
-- What a run of common/keyboard_scan.c has seen of one key.
use chromium_ec.Common.{
  ℕ, ◌+◌, ◌-◌, ◌%◌, ◌^◌, ◌≤◌, ◌≡◌, ◌⊎◌, inl, inr, Bool, true, List, [], ◌∷◌, arith,
}
use chromium_ec.Common.Bits.{test_bit}
use chromium_ec.KeyScan.{has_ghosting, Matrix}

-- A scan by its time and the matrix that stands after it.
pub record Scan : Type 0 where
  pub time : ℕ
  pub matrix : Matrix

-- Scans, the last one first: there is one at `limit` or before whose matrix has `b` for the key in
-- row `i` of column `c`, and the matrix of every one since has `b` too or has ghosting.
abbrev pub Held : (c i : ℕ) → Bool → (limit : ℕ) → List Scan → Type 0
Held c i b limit [] = ⊥
Held c i b limit (s ∷ older) =
    ((test_bit (s.matrix c) i ≡ b) × (s.time ≤ limit))
    ⊎ (((has_ghosting s.matrix ≡ true) ⊎ (test_bit (s.matrix c) i ≡ b)) × Held c i b limit older)

pub Held-mono :
    (c i : ℕ) (b : Bool) (t u : ℕ) (seen : List Scan)
    → t ≤ u
    → Held c i b t seen
    → Held c i b u seen
Held-mono c i b t u [] h none_seen = elim none_seen [ ]
Held-mono c i b t u (s ∷ older) h (inl (reads, at)) = inl (reads, omega arith)
Held-mono c i b t u (s ∷ older) h (inr (reads, held)) =
    inr (reads, Held-mono c i b t u older h held)

-- The slot `stamp` of scan_time holds a time until which the key has been held.
pub record Since (now : ℕ) (seen : List Scan) (c i : ℕ) (b : Bool) (stamp : ℕ) : Type 0 where
  pub start : ℕ
  pub stamped : stamp ≡ start % 2 ^ 32
  pub past : start ≤ now
  pub held : Held c i b start seen

-- What the code computes as the time since the stamp is at most the time since then.
pub Since-waited :
    (now start d : ℕ)
    → start ≤ now
    → d ≤ (now % 2 ^ 32 + 2 ^ 32 - start % 2 ^ 32) % 2 ^ 32
    → start + d ≤ now
Since-waited now start d h w = omega arith
