-- ===== src/Queue/Fifo.antt =====
-- The contract of common/queue.c: a bounded first-in first-out sequence of units. No sequence of
-- calls tells the byte ring from it.
use mathlib.Core.List.{append_assoc}
use chromium_ec.Common.{
  ℕ, zero, suc, ◌+◌, ◌*◌, ◌<◌, ◌≡◌, refl, ap, ◌∙◌, sym, Bool, true, false, List, [], ◌∷◌, ◌++◌,
  arith, ltb, length, length-append, take, if◌then◌else◌, Bool-cases, inl, inr, ltb→lt, ap₂,
  length-run_from,
}
use chromium_ec.Queue.{Queue, reset, is_empty, has_space, add_units, remove_bytes, remove_unit}
use chromium_ec.Queue.Bytes.{IsValid, count, contents}
use chromium_ec.Queue.Invariant.{
  is_empty-count, has_space-count, add_bytes-Added, remove_bytes-Removed, reset-IsValid,
}

-- The calls of a client.
pub data Op : Type 0 where
  put : List (List ℕ) → Op
  get : Op
  clear : Op

-- What a client sees of a call: the status and the unit that `queue_remove_unit` gives.
abbrev pub Reply : Type 0
Reply = Bool × List ℕ

-- The units of a `put`, laid out in memory as `queue_add_units` is given them.
abbrev pub concat : List (List ℕ) → List ℕ
concat [] = []
concat (u ∷ us) = u ++ concat us

unfoldable pub run : Queue → List Op → List Reply
run q [] = []
run q (put us ∷ ops) = (true, []) ∷ run (add_units q (concat us) (length us)) ops
run q (get ∷ ops) = let (rv, d, q') = remove_unit q in (rv, d) ∷ run q' ops
run q (clear ∷ ops) = (true, []) ∷ run (reset q) ops

pub spec_get : List (List ℕ) → Bool × List ℕ × List (List ℕ)
spec_get [] = (false, [], [])
spec_get (u ∷ f) = (true, u, f)

-- The specification: the units in order, at most as many as leave one byte of `bb` free.
module _ (bb ub : ℕ) where
  pub spec_put : List (List ℕ) → List (List ℕ) → List (List ℕ)
  spec_put us f = if ltb ((length f + length us) * ub) bb then f ++ us else f

  pub spec_run : List (List ℕ) → List Op → List Reply
  spec_run f [] = []
  spec_run f (put us ∷ ops) = (true, []) ∷ spec_run (spec_put us f) ops
  spec_run f (get ∷ ops) = let (rv, u, f') = spec_get f in (rv, u) ∷ spec_run f' ops
  spec_run f (clear ∷ ops) = (true, []) ∷ spec_run [] ops

-- Every unit has `ub` bytes.
abbrev pub AllUnits : ℕ → List (List ℕ) → Type 0
AllUnits ub [] = Unit
AllUnits ub (u ∷ us) = (length u ≡ ub) × AllUnits ub us

abbrev pub OpsFit : ℕ → List Op → Type 0
OpsFit ub [] = Unit
OpsFit ub (put us ∷ ops) = AllUnits ub us × OpsFit ub ops
OpsFit ub (get ∷ ops) = OpsFit ub ops
OpsFit ub (clear ∷ ops) = OpsFit ub ops

length-concat : (ub : ℕ) (us : List (List ℕ)) → AllUnits ub us → length (concat us) ≡ length us * ub
length-concat ub [] a = omega arith
length-concat ub (u ∷ us) a =
    omega (arith, length-append u (concat us), length-concat ub us a.1, a.0)

concat-append : (us vs : List (List ℕ)) → concat (us ++ vs) ≡ concat us ++ concat vs
concat-append [] vs = refl
concat-append (u ∷ us) vs =
    ap (λ l. u ++ l) (concat-append us vs) ∙ sym (append_assoc u (concat us) (concat vs))

AllUnits-append :
    (ub : ℕ) (us vs : List (List ℕ)) → AllUnits ub us → AllUnits ub vs → AllUnits ub (us ++ vs)
AllUnits-append ub [] vs a b = b
AllUnits-append ub (u ∷ us) vs a b = (a.0, AllUnits-append ub us vs a.1 b)

take-all : (n : ℕ) (xs : List ℕ) → length xs ≡ n → take n xs ≡ xs
take-all zero [] h = refl
take-all (suc n) [] h = refl
take-all zero (x ∷ xs) h = absurd (omega arith)
take-all (suc n) (x ∷ xs) h = ap (λ l. x ∷ l) (take-all n xs (omega arith))

-- Lists with prefixes of one length are equal part by part.
append-injective :
    (us vs cs ds : List ℕ) → length us ≡ length vs → us ++ cs ≡ vs ++ ds → (us ≡ vs) × (cs ≡ ds)
append-injective [] [] cs ds l e = (refl, e)
append-injective [] (b ∷ vs) cs ds l e = absurd (omega arith)
append-injective (a ∷ us) [] cs ds l e = absurd (omega arith)
append-injective (a ∷ us) (b ∷ vs) cs ds l e = ground (arith, append-injective us vs cs ds)

-- A queue holds the units `f`.
pub record Holds (bb ub : ℕ) (f : List (List ℕ)) (q : Queue) : Type 0 where
  pub valid : IsValid q
  pub buf_is : q.buf_bytes ≡ bb
  pub unit_is : q.unit_bytes ≡ ub
  pub units : AllUnits ub f
  pub bytes : contents q ≡ concat f

count-Holds :
    {bb ub : ℕ} {f : List (List ℕ)} {q : Queue} → Holds bb ub f q → count q ≡ length f * ub
count-Holds {ub = ub} {f = f} {q = q} h =
    sym (length-run_from 0 q.buf q.buf_bytes q.head (count q))
    ∙ ap length h.bytes
    ∙ length-concat ub f h.units

has_space-Holds :
    {bb ub : ℕ} {f : List (List ℕ)} {q : Queue} (n : ℕ)
    → Holds bb ub f q
    → has_space q n ≡ ltb ((length f + n) * ub) bb
has_space-Holds {bb} {ub} {f} {q} n h =
    has_space-count n h.valid
    ∙ ap₂ ltb {y = (length f + n) * ub} (omega (arith, count-Holds h, ap (λ u. n * u) h.unit_is))
        h.buf_is

put-Holds :
    {bb ub : ℕ} {f : List (List ℕ)} {q : Queue} (us : List (List ℕ))
    → AllUnits ub us
    → Holds bb ub f q
    → Holds bb ub (spec_put bb ub us f) (add_units q (concat us) (length us))
unfolding add_units spec_put
put-Holds {bb} {ub} {f} {q} us a h = elim (Bool-cases (ltb ((length f + length us) * ub) bb)) [
  | inl fits ↦
      let total : count q + length us * q.unit_bytes < q.buf_bytes =
        omega
          (arith, count-Holds h, ltb→lt _ _ fits, h.unit_is, ap (λ u. length us * u) h.unit_is) in
      let given : length us * q.unit_bytes ≡ length (concat us) =
        omega (arith, length-concat ub us a, ap (λ u. length us * u) h.unit_is) in
      let done =
        add_bytes-Added (length us * q.unit_bytes) (concat us) h.valid (omega arith) total in
      rw (fits, has_space-Holds (length us) h ∙ fits)
        (record {
          valid = done.valid;
          buf_is = done.shape.same_buf ∙ h.buf_is;
          unit_is = done.shape.same_unit ∙ h.unit_is;
          units = AllUnits-append ub f us h.units a;
          bytes =
              done.bytes
              ∙ ap₂ ◌++◌ h.bytes (take-all _ (concat us) (sym given))
              ∙ sym (concat-append f us);
        })
  | inr full ↦ rw (full, has_space-Holds (length us) h ∙ full) h
]

get-Holds :
    {bb ub : ℕ} {u : List ℕ} {f : List (List ℕ)} {q : Queue}
    → 0 < ub
    → Holds bb ub (u ∷ f) q
    → ((remove_unit q).0 ≡ true) × ((remove_unit q).1 ≡ u) × Holds bb ub f (remove_unit q).2
unfolding remove_unit
get-Holds {ub = ub} {u = u} {f = f} {q = q} pos h =
    let some : is_empty q ≡ false = is_empty-count h.valid ∙ ground (arith, count-Holds h) in
    let out = remove_bytes-Removed q.unit_bytes h.valid (omega (arith, count-Holds h, h.unit_is)) in
    let (same, rest) =
      append-injective u (remove_bytes q.unit_bytes q).0 (concat f) _
        (h.units.0 ∙ sym h.unit_is ∙ sym out.given) (sym h.bytes ∙ out.bytes) in
    rw some (
      refl,
      sym same,
      record {
        valid = out.valid;
        buf_is = out.shape.same_buf ∙ h.buf_is;
        unit_is = out.shape.same_unit ∙ h.unit_is;
        units = h.units.1;
        bytes = sym rest;
      },
    )

get-Holds_empty : {bb ub : ℕ} {q : Queue} → Holds bb ub [] q → remove_unit q ≡ (false, [], q)
unfolding remove_unit
get-Holds_empty {q = q} h = ground (arith, is_empty-count h.valid, count-Holds h)

reset-Holds :
    {bb ub : ℕ} {f : List (List ℕ)} {q : Queue} → Holds bb ub f q → Holds bb ub [] (reset q)
unfolding reset
reset-Holds {bb} {ub} {f} {q} h = record {
  valid = (reset-IsValid h.valid).0;
  buf_is = h.buf_is;
  unit_is = h.unit_is;
  units = tt;
  bytes = (reset-IsValid h.valid).1;
}

-- From a queue that holds the units `f`, any sequence of `queue_add_units`, `queue_remove_unit` and
-- `queue_reset` calls with units of the queue's size (which is not 0) returns the statuses and the
-- units that a bounded first-in first-out sequence returns: units come out whole and in the order
-- they went in, a call that would not leave a byte free adds nothing, and a removal fails exactly
-- when nothing is left.
pub run_refines :
    (ops : List Op) {bb ub : ℕ} {f : List (List ℕ)} {q : Queue}
    → 0 < ub
    → OpsFit ub ops
    → Holds bb ub f q
    → run q ops ≡ spec_run bb ub f ops
unfolding run spec_run spec_get
run_refines [] pos fit h = refl
run_refines (put us ∷ ops) pos fit h =
    ap (λ l. (true, []) ∷ l) (run_refines ops pos fit.1 (put-Holds us fit.0 h))
run_refines (get ∷ ops) {f = []} pos fit h =
    rw (get-Holds_empty h) (ap (λ l. (false, []) ∷ l) (run_refines ops pos fit h))
run_refines (get ∷ ops) {f = u ∷ f} pos fit h =
    let (rv, given, rest) = get-Holds pos h in
    ap₂ ◌∷◌ (λ i. (rv i, given i)) (run_refines ops pos fit rest)
run_refines (clear ∷ ops) {f = f} pos fit h =
    ap (λ l. (true, []) ∷ l) (run_refines ops pos fit (reset-Holds h))
