-- ===== src/Directory/Dropped.antt =====
-- DROP TABLE: the files that go, and the ones that stay.
use tinydbpp.Base.{Bool, false, not, ◌||◌, List, [], ◌∷◌, get_or, ◌==◌}
use tinydbpp.Query.{Text}
use tinydbpp.Directory.{belongs}

-- A name that listFiles shows.
abbrev pub is_visible : Text → Bool
is_visible f = not (get_or f 0 0 == 46)

abbrev pub any_listed : Text → List Text → Bool
any_listed table [] = false
any_listed table (f ∷ fs) = belongs table f || any_listed table fs
