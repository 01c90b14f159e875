-- ===== src/Task/Mutex/Exclusion.antt =====
-- The mutex of core/cortex-m/task.c excludes, whatever the interleaving.
use chromium_ec.Common.{
  ℕ, ◌^◌, ◌≡◌, ◌≢◌, ◌<◌, inl, inr, refl, sym, ap, subst, ◌∙◌, Bool, true, false, ◌==◌, nonzero,
  arith, Bool-cases, ℕ_discrete,
}
use chromium_ec.Common.Bits.{test_bit, test_bit-clear, test_bit-set}
use chromium_ec.HostEvent.{atomic_clear, atomic_or}
use chromium_ec.Task.{update, highest}
use chromium_ec.Task.Mutex.{
  Mutex, Phase, outside, trying, waiting, taken, holding, releasing, waking, register, try_lock,
  wake_up, finish_lock, event_mutex, read_waiters, store_lock, wake_next,
}

-- One access by one of the 32 tasks, or an event that the task `i` gets from elsewhere.
pub data Step (m m' : Mutex) : Type 0 where
  begin : (i : ℕ) → i < 32 → m.phase i ≡ outside → m' ≡ register i m → Step m m'
  try : (stored : Bool) (i : ℕ) → i < 32 → m.phase i ≡ trying → m' ≡ try_lock stored i m → Step m m'
  wake : (i : ℕ) → i < 32 → m.phase i ≡ waiting → m' ≡ wake_up i m → Step m m'
  enter : (i : ℕ) → i < 32 → m.phase i ≡ taken → m' ≡ finish_lock i m → Step m m'
  leave : (i : ℕ) → i < 32 → m.phase i ≡ holding → m' ≡ read_waiters i m → Step m m'
  store : (w i : ℕ) → i < 32 → m.phase i ≡ releasing w → m' ≡ store_lock w i m → Step m m'
  notify : (w i : ℕ) → i < 32 → m.phase i ≡ waking w → m' ≡ wake_next w i m → Step m m'
  event : (i e : ℕ) → m' ≡ record m { events = update m.events i e } → Step m m'

-- A task owns the mutex from its store of 2 to its store of 0.
abbrev pub owns : Phase → Bool
owns taken = true
owns holding = true
owns (releasing w) = true
owns outside = false
owns trying = false
owns waiting = false
owns (waking w) = false

-- A task that is still in mutex_lock.
abbrev pub is_locking : Phase → Bool
is_locking trying = true
is_locking waiting = true
is_locking taken = true
is_locking outside = false
is_locking holding = false
is_locking (releasing w) = false
is_locking (waking w) = false

-- Some task owns the mutex.
abbrev pub Owned : (ℕ → Phase) → Type 0
Owned phase = (i : ℕ) × (i < 32) × (owns (phase i) ≡ true)

pub record IsExclusive (m : Mutex) : Type 0 where
  pub one_owner :
      (i j : ℕ) → i < 32 → j < 32 → owns (m.phase i) ≡ true → owns (m.phase j) ≡ true → i ≡ j
  pub locked : (i : ℕ) → i < 32 → owns (m.phase i) ≡ true → m.lock ≡ 2
  pub owned : m.lock ≢ 0 → Owned m.phase
  pub registered : (i : ℕ) → i < 32 → is_locking (m.phase i) ≡ true → test_bit m.waiters i ≡ true

-- A task that moves from `p` to `q` and owns as before leaves the owner as it is.
Owned-update :
    (phase : ℕ → Phase) (i : ℕ) (q : Phase)
    → owns q ≡ owns (phase i)
    → Owned phase
    → Owned (update phase i q)
Owned-update phase i q same (j, h, o) = (j, h, ground (arith, same, o, ap phase {x = i} {y = j}))

-- A move of the task `i` with the lock as it is.
move-IsExclusive :
    (i : ℕ) (q : Phase) (m m' : Mutex)
    → i < 32
    → owns q ≡ owns (m.phase i)
    → m'.phase ≡ update m.phase i q
    → m'.lock ≡ m.lock
    → ((j : ℕ) → j < 32 → is_locking (update m.phase i q j) ≡ true → test_bit m'.waiters j ≡ true)
    → IsExclusive m
    → IsExclusive m'
move-IsExclusive i q m m' h same phase lock reg v =
    let back : (j : ℕ) → owns (m'.phase j) ≡ true → owns (m.phase j) ≡ true =
      λ j o. ground (arith, ap (λ f. owns (f j)) phase, same, o, ap m.phase {x = i} {y = j}) in
    record {
      one_owner = λ a b ha hb oa ob. v.one_owner a b ha hb (back a oa) (back b ob);
      locked = λ a ha oa. lock ∙ v.locked a ha (back a oa);
      owned = λ n.
          subst Owned (sym phase) (Owned-update m.phase i q same (v.owned (λ z. n (lock ∙ z))));
      registered = λ a ha la. reg a ha (ap (λ f. is_locking (f a)) (sym phase) ∙ la);
    }

register-IsExclusive :
    (i : ℕ) (m : Mutex) → i < 32 → m.phase i ≡ outside → IsExclusive m → IsExclusive (register i m)
unfolding register
register-IsExclusive i m h e v =
    move-IsExclusive i trying m (register i m) h (ap owns (sym e)) refl refl
      (λ j hj l. ground (arith, v.registered j hj, l, test_bit-set m.waiters i j)) v

try_lock-IsExclusive :
    (stored : Bool) (i : ℕ) (m : Mutex)
    → i < 32
    → m.phase i ≡ trying
    → IsExclusive m
    → IsExclusive (try_lock stored i m)
unfolding try_lock
try_lock-IsExclusive stored i m h e v = elim (ℕ_discrete m.lock 0) [
  | yes free ↦ elim (Bool-cases stored) [
    | inl s ↦
        simp (free, s)
          (record {
            one_owner =
                λ a b ha hb oa ob. ground (arith, v.locked a ha, v.locked b hb, oa, ob, free);
            locked = λ a ha oa. refl;
            owned = λ n. (i, h, ground arith);
            registered = λ a ha la. ground (arith, v.registered a ha, v.registered i h, la, e);
          })
    | inr f ↦ simp (free, f) v
  ]
  | no busy ↦
      let taken_already : (m.lock == 0) ≡ false = ground (arith, busy) in
      rw taken_already (
        move-IsExclusive i waiting m (record m { phase = update m.phase i waiting }) h
          (ap owns (sym e)) refl refl
          (λ j hj l. ground (arith, v.registered j hj, l, v.registered i h, e)) v)
]

wake_up-IsExclusive :
    (i : ℕ) (m : Mutex) → i < 32 → m.phase i ≡ waiting → IsExclusive m → IsExclusive (wake_up i m)
unfolding wake_up
wake_up-IsExclusive i m h e v = elim (Bool-cases (nonzero (m.events i))) [
  | inl some ↦ rw some (
      move-IsExclusive i trying m
        (record m { events = update m.events i 0; phase = update m.phase i trying }) h
        (ap owns (sym e)) refl refl
        (λ j hj l. ground (arith, v.registered j hj, l, v.registered i h, e)) v)
  | inr none ↦ rw none v
]

finish_lock-IsExclusive :
    (i : ℕ) (m : Mutex) → i < 32 → m.phase i ≡ taken → IsExclusive m → IsExclusive (finish_lock i m)
unfolding finish_lock
finish_lock-IsExclusive i m h e v =
    move-IsExclusive i holding m (finish_lock i m) h (ap owns (sym e)) refl refl
      (λ j hj l. ground (arith, v.registered j hj, l, test_bit-clear 32 m.waiters i j h hj)) v

read_waiters-IsExclusive :
    (i : ℕ) (m : Mutex)
    → i < 32
    → m.phase i ≡ holding
    → IsExclusive m
    → IsExclusive (read_waiters i m)
unfolding read_waiters
read_waiters-IsExclusive i m h e v =
    move-IsExclusive i (releasing m.waiters) m (read_waiters i m) h (ap owns (sym e)) refl refl
      (λ j hj l. ground (arith, v.registered j hj, l)) v

store_lock-IsExclusive :
    (w i : ℕ) (m : Mutex)
    → i < 32
    → m.phase i ≡ releasing w
    → IsExclusive m
    → IsExclusive (store_lock w i m)
unfolding store_lock
store_lock-IsExclusive w i m h e v =
    let mine : owns (m.phase i) ≡ true = ap owns e in
    record {
      one_owner = λ a b ha hb oa ob. ground (arith, v.one_owner a b ha hb, oa, ob);
      locked = λ a ha oa. absurd (ground (arith, v.one_owner i a h ha mine, oa));
      owned = λ n. absurd (n refl);
      registered = λ a ha la. ground (arith, v.registered a ha, la);
    }

wake_next-IsExclusive :
    (w i : ℕ) (m : Mutex)
    → i < 32
    → m.phase i ≡ waking w
    → IsExclusive m
    → IsExclusive (wake_next w i m)
unfolding wake_next
wake_next-IsExclusive w i m h e v = elim (Bool-cases (nonzero w)) [
  | inl some ↦ rw some (
      move-IsExclusive i (waking (atomic_clear w (2 ^ highest 32 w))) m
        (record m {
          events = update m.events (highest 32 w) (atomic_or (m.events (highest 32 w)) event_mutex);
          phase = update m.phase i (waking (atomic_clear w (2 ^ highest 32 w)));
        })
        h (ap owns (sym e)) refl refl (λ j hj l. ground (arith, v.registered j hj, l)) v)
  | inr none ↦ rw none (
      move-IsExclusive i outside m
        (record m {
          events = update m.events i (atomic_clear (m.events i) event_mutex);
          phase = update m.phase i outside;
        })
        h (ap owns (sym e)) refl refl (λ j hj l. ground (arith, v.registered j hj, l)) v)
]

Step-IsExclusive : {m m' : Mutex} → Step m m' → IsExclusive m → IsExclusive m'
Step-IsExclusive {m} (begin i h p e) v = subst IsExclusive (sym e) (register-IsExclusive i m h p v)
Step-IsExclusive {m} (try s i h p e) v =
    subst IsExclusive (sym e) (try_lock-IsExclusive s i m h p v)
Step-IsExclusive {m} (wake i h p e) v = subst IsExclusive (sym e) (wake_up-IsExclusive i m h p v)
Step-IsExclusive {m} (enter i h p e) v =
    subst IsExclusive (sym e) (finish_lock-IsExclusive i m h p v)
Step-IsExclusive {m} (leave i h p e) v =
    subst IsExclusive (sym e) (read_waiters-IsExclusive i m h p v)
Step-IsExclusive {m} (store w i h p e) v =
    subst IsExclusive (sym e) (store_lock-IsExclusive w i m h p v)
Step-IsExclusive {m} (notify w i h p e) v =
    subst IsExclusive (sym e) (wake_next-IsExclusive w i m h p v)
Step-IsExclusive {m} (event i x e) v = subst IsExclusive (sym e) (record {
  one_owner = v.one_owner;
  locked = v.locked;
  owned = v.owned;
  registered = v.registered;
})

-- What the accesses lead to, in any interleaving.
pub data Reach (m : Mutex) : Mutex → Type 0 where
  here : Reach m m
  next : {m' m'' : Mutex} → Reach m m' → Step m' m'' → Reach m m''

-- From an exclusive state, such as a free mutex with every task outside, every interleaving of the
-- accesses leads to one: at most one task owns the mutex, the lock is 2 while a task owns it, some
-- task owns it whenever the lock is not 0, and every task that is still in mutex_lock has its bit
-- among the waiters.
pub Reach-IsExclusive : {m m' : Mutex} → Reach m m' → IsExclusive m → IsExclusive m'
Reach-IsExclusive here v = v
Reach-IsExclusive (next r s) v = Step-IsExclusive s (Reach-IsExclusive r v)
