-- ===== src/Queue/Tests.antt =====
-- common/queue.c on concrete queues.
use chromium_ec.Common.{◌≡◌, refl, true, false, List, [], ◌∷◌, arith}
use chromium_ec.Queue.{
  Queue, reset, add_units, add_bytes, has_space, is_empty, remove_unit, remove_bytes,
}
use chromium_ec.Queue.Fifo.{Op, put, get, clear, run, spec_run, run_refines}

-- Eight bytes for units of two, with the unit (1, 2) stored round the end of the buffer.
abbrev wrapped : Queue
wrapped = record {
  head = 7;
  tail = 1;
  buf_bytes = 8;
  unit_bytes = 2;
  buf = 2 ∷ 0 ∷ 0 ∷ 0 ∷ 0 ∷ 0 ∷ 0 ∷ 1 ∷ [];
}

abbrev script : List Op
script =
    put ((3 ∷ 4 ∷ []) ∷ (5 ∷ 6 ∷ []) ∷ []) ∷ put ((7 ∷ 8 ∷ []) ∷ []) ∷ get ∷ get ∷ clear ∷ get ∷ []

run-script :
    run wrapped script
    ≡ (true, [])
      ∷ (true, [])
      ∷ (true, 1 ∷ 2 ∷ [])
      ∷ (true, 3 ∷ 4 ∷ [])
      ∷ (true, [])
      ∷ (false, [])
      ∷ []
unfolding run add_units add_bytes has_space is_empty remove_unit remove_bytes reset
run-script = refl

run_refines_example : run wrapped script ≡ spec_run 8 2 ((1 ∷ 2 ∷ []) ∷ []) script
run_refines_example = run_refines script (omega arith) (omega arith) (record {
  valid = omega arith;
  buf_is = refl;
  unit_is = refl;
  units = omega arith;
  bytes = refl;
})
