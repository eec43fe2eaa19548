-- ===== src/Pager/Client.antt =====
-- A pager under a sequence of calls of its client, and the plain array of pages that it stands for.
pub mod Step
pub mod Run
pub mod Examples
use tinydbpp.Base.{
  ℕ, suc, ◌-◌, Bool, true, false, ◌&&◌, ◌||◌, List, [], ◌∷◌, ◌++◌, ltb, ◌==◌, if◌then◌else◌,
  Outcome, ok, ◌>>=◌,
}
use tinydbpp.Base.Bytes.{Bytes}
use tinydbpp.Pager.{
  Pager, Quota, granted, out_of_memory, has, get_page, get_buf, release_buf, modify, write_back_all,
}
use tinydbpp.Pager.Keys.{count}
use tinydbpp.Pager.Evict.{max_id}

-- The calls: getPage, getBuf and releaseBuf of a page object, a change of the bytes of its buffer
-- with markDirty, and writeBackAll.
pub data Call : Type 0 where
  page_of buffer_of release_of : ℕ → Call
  change_of : ℕ → Bytes → Call
  flush : Call

-- The call on the pager.
unfoldable pub step : Pager → Call → Outcome Quota
step p (page_of id) = ok (granted (get_page p id))
step p (buffer_of id) = get_buf p id
step p (release_of id) = release_buf p id >>= λ q. ok (granted q)
step p (change_of id b) = ok (granted (modify p id b))
step p flush = write_back_all p >>= λ q. ok (granted q)

-- An exception ends the sequence.
unfoldable pub run : Pager → List Call → Outcome Quota
unfolding step
run p [] = ok (granted p)
run p (c ∷ cs) =
    step p c >>= λ quota. elim quota [ out_of_memory ↦ ok out_of_memory | granted q ↦ run q cs ]

-- What a client knows: the pages it has asked for, how often it holds the buffer of each, and the
-- bytes of all pages.
pub record Array : Type 0 where
  pub known : List ℕ
  pub held : ℕ → ℕ
  pub bytes : ℕ → Bytes

abbrev pub is_held : Array → ℕ → Bool
is_held a k = ltb 0 (a.held k)

-- The effect of a call on the array: no call but a change of bytes changes the bytes.
unfoldable pub effect : Array → Call → Array
effect a (page_of id) =
    if has id a.known
    then a
    else record a { known = a.known ++ id ∷ []; held = λ k. if k == id then 0 else a.held k }
effect a (buffer_of id) = record a { held = λ k. if k == id then suc (a.held id) else a.held k }
effect a (release_of id) = record a { held = λ k. if k == id then a.held id - 1 else a.held k }
effect a (change_of id b) = record a { bytes = λ k. if k == id then b else a.bytes k }
effect a flush = a

-- The calls that a client may make: a buffer that it holds already, or one more while it holds fewer
-- than the maximum, and no buffer that it holds 2147483647 times; releases and changes of what it holds.
unfoldable pub allowed : ℕ → Array → Call → Bool
unfolding count
allowed max a (page_of id) = ltb id max_id
allowed max a (buffer_of id) =
    has id a.known
    && ltb (a.held id) 2147483647
    && (is_held a id || ltb (count (is_held a) a.known) max)
allowed max a (release_of id) = has id a.known && is_held a id
allowed max a (change_of id b) = has id a.known && is_held a id
allowed max a flush = true

unfoldable pub effects : Array → List Call → Array
unfolding effect
effects a [] = a
effects a (c ∷ cs) = effects (effect a c) cs

unfoldable pub all_allowed : ℕ → Array → List Call → Bool
unfolding allowed effect
all_allowed max a [] = true
all_allowed max a (c ∷ cs) = allowed max a c && all_allowed max (effect a c) cs
