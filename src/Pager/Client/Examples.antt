-- ===== src/Pager/Client/Examples.antt =====
-- A client of a pager with room for one buffer: it changes page 3, and reads page 4 after it.
use tinydbpp.Base.{
  ℕ, ◌+◌, ◌*◌, ◌%◌, ◌≤◌, ◌≡◌, ◌==◌, Bool-cases, inl, inr, some, refl, List, [], ◌∷◌, true, arith,
  ok, undefined,
}
use tinydbpp.Base.Bytes.{Bytes}
use tinydbpp.Pager.{Pager, new_page, has, granted, write_back_all}
use tinydbpp.Pager.Keys.{count}
use tinydbpp.Pager.Client.{
  Call, page_of, buffer_of, release_of, change_of, flush, run, effect, effects, allowed,
  all_allowed,
}
use tinydbpp.Pager.Client.Step.{StandsFor}
use tinydbpp.Pager.Client.Run.{run-StandsFor, run_bound}
use tinydbpp.Pager.Lifetime.{
  open_pager, opened, opened_array, opened-StandsFor, destroy_pager, open_pager-destroy_pager,
  destroy_pager-undefined,
}

abbrev zeros : ℕ → Bytes
zeros k i = 0

abbrev sevens : Bytes
sevens i = 7

abbrev calls : List Call
calls =
    page_of 3
    ∷ buffer_of 3
    ∷ change_of 3 sevens
    ∷ release_of 3
    ∷ page_of 4
    ∷ buffer_of 4
    ∷ release_of 4
    ∷ flush
    ∷ []

calls-allowed : all_allowed 1 (opened_array zeros) calls ≡ true
unfolding all_allowed allowed effect has count
calls-allowed = refl

released : (k : ℕ) → (effects (opened_array zeros) calls).held k ≡ 0
unfolding effects effect has
released k = elim (Bool-cases (k == 4)) [
  | inl four ↦ rw four refl
  | inr other ↦ elim (Bool-cases (k == 3)) [
    | inl three ↦ rw (other, three) refl
    | inr neither ↦ rw (other, neither) refl
  ]
]

run-StandsFor_example :
    (q : Pager) × (run (opened 0 zeros 1 true) calls ≡ ok (granted q))
    × StandsFor 1 q (effects (opened_array zeros) calls)
run-StandsFor_example =
    run-StandsFor 1 (opened 0 zeros 1 true) (opened_array zeros) calls
      (opened-StandsFor 0 zeros 1 (omega arith) (omega arith)) calls-allowed

run_bound_example :
    (q : Pager) × (run (opened 0 zeros 1 true) calls ≡ ok (granted q))
    × (q.pages_cached ≤ 1)
    × ((k : ℕ) → has k q.keys ≡ true → (k + 1) * 4096 ≤ q.file_size)
run_bound_example =
    run_bound 1 (opened 0 zeros 1 true) (opened_array zeros) calls
      (opened-StandsFor 0 zeros 1 (omega arith) (omega arith)) calls-allowed

open_pager-destroy_pager_example :
    (p q r : Pager) × (open_pager true 0 zeros 1 true ≡ ok p)
    × (run p calls ≡ ok (granted q))
    × (write_back_all q ≡ ok r)
    × (destroy_pager r ≡ ok (r.file_size, r.file))
    × (r.file_size % 4096 ≡ 0)
    × ((k : ℕ) → r.file k ≡ (effects (opened_array zeros) calls).bytes k)
open_pager-destroy_pager_example =
    open_pager-destroy_pager 0 zeros 1 calls (omega arith) (omega arith) calls-allowed released

-- A pager whose page 3 has changes that are not in its file.
abbrev pub changed_pager : Pager
changed_pager = record (opened 4096 zeros 1 true) {
  keys = 3 ∷ [];
  page = λ k. record new_page { buf = some sevens; dirty = true };
  pages_cached = 1;
}

pub changed_pager-has : has 3 changed_pager.keys ≡ true
unfolding has
changed_pager-has = refl

destroy_pager-undefined_example : destroy_pager changed_pager ≡ undefined
destroy_pager-undefined_example = destroy_pager-undefined changed_pager 3 changed_pager-has refl
