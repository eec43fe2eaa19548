-- ===== src/Pager/Client/Run.antt =====
-- Sequences of calls on a pager.
use tinydbpp.Base.{ℕ, ◌+◌, ◌*◌, ◌≤◌, ◌≡◌, refl, List, [], ◌∷◌, true, arith, ok}
use tinydbpp.Pager.{Pager, granted, has}
use tinydbpp.Pager.Client.{Call, run, Array, effect, effects, all_allowed}
use tinydbpp.Pager.Client.Step.{StandsFor, step-StandsFor}

-- In lazy mode, a pager that stands for an array of pages, with the pages that its client knows,
-- how often it holds each, and their bytes, returns from every sequence of calls of `getPage`,
-- `getBuf`, `releaseBuf`, `markDirty` and `writeBackAll` that is allowed, and stands for the array
-- after them. Allowed are page numbers below 524287, a buffer that is held already, fewer than
-- 2147483647 times, or one more while fewer than the maximum are held, and releases and changes of
-- what is held. The counts of the performance monitor wrap as ints of 32 bits. No call but a
-- change of bytes changes the array's bytes, whatever is evicted.
pub run-StandsFor :
    (max : ℕ) (p : Pager) (a : Array) (cs : List Call)
    → StandsFor max p a
    → all_allowed max a cs ≡ true
    → (q : Pager) × (run p cs ≡ ok (granted q)) × StandsFor max q (effects a cs)
unfolding run effects all_allowed
run-StandsFor max p a [] s h = (p, refl, s)
run-StandsFor max p a (c ∷ cs) s h =
    let (q, now, t) = step-StandsFor max p a c s (ground (arith, h)) in
    let (r, then_, u) = run-StandsFor max q (effect a c) cs t (ground (arith, h)) in
    (r, rw now then_, u)

-- In lazy mode, a pager that stands for an array of pages returns from every sequence of allowed
-- calls, and at most the maximum of pages are cached after it, and each page that the pager knows
-- lies inside its file.
pub run_bound :
    (max : ℕ) (p : Pager) (a : Array) (cs : List Call)
    → StandsFor max p a
    → all_allowed max a cs ≡ true
    → (q : Pager) × (run p cs ≡ ok (granted q))
      × (q.pages_cached ≤ max)
      × ((k : ℕ) → has k q.keys ≡ true → (k + 1) * 4096 ≤ q.file_size)
run_bound max p a cs s h =
    let (q, runs, t) = run-StandsFor max p a cs s h in
    (q, runs, omega (arith, t.inv.bounded, t.max_pages), λ k known. (t.inv.pages k known).room)
