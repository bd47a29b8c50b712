-- ===== src/Spop/SpopList.antt =====
-- `to_spop_list` and `from_spop_list` of `Frame` in spoe_forge/spop/frame.py, with the `str` methods
-- `strip`, `split` and `join` that they use.
pub mod Laws
use spoe_forge.Prelude.{
  ℕ, Bool, true, false, ◌&&◌, ◌||◌, List, [], ◌∷◌, ◌++◌, leb, ◌==◌, if◌then◌else◌,
}
use spoe_forge.Prelude.Text.{Text}

-- The white space of `str.strip`.
abbrev pub is_space : ℕ → Bool
is_space c =
    leb 0x09 c && leb c 0x0d
    || leb 0x1c c && leb c 0x20
    || c == 0x85
    || c == 0xa0
    || c == 0x1680
    || leb 0x2000 c && leb c 0x200a
    || c == 0x2028
    || c == 0x2029
    || c == 0x202f
    || c == 0x205f
    || c == 0x3000

abbrev pub is_empty : Text → Bool
is_empty [] = true
is_empty (c ∷ s) = false

unfoldable pub lstrip : Text → Text
lstrip [] = []
lstrip (c ∷ s) = if is_space c then lstrip s else c ∷ s

unfoldable pub rstrip : Text → Text
rstrip [] = []
rstrip (c ∷ s) = let rest = rstrip s in if is_empty rest && is_space c then [] else c ∷ rest

unfoldable pub strip : Text → Text
unfolding lstrip rstrip
strip s = rstrip (lstrip s)

abbrev pub comma : ℕ
comma = 0x2c

-- A character in front of the first field.
abbrev pub push : ℕ → List Text → List Text
push c [] = (c ∷ []) ∷ []
push c (field ∷ fields) = (c ∷ field) ∷ fields

-- `s.split(sep)`, for a separator of one character
unfoldable pub split : ℕ → Text → List Text
split sep [] = [] ∷ []
split sep (c ∷ s) = let fields = split sep s in if c == sep then [] ∷ fields else push c fields

-- `",".join(items)`
unfoldable pub join : List Text → Text
join [] = []
join (item ∷ []) = item
join (item ∷ next ∷ items) = item ++ (comma ∷ join (next ∷ items))

unfoldable pub strip_all : List Text → List Text
strip_all [] = []
strip_all (item ∷ items) = strip item ∷ strip_all items

-- The comprehension: strip each field and keep what is not empty.
unfoldable pub strip_fields : List Text → List Text
strip_fields [] = []
strip_fields (field ∷ fields) =
    let rest = strip_fields fields in
    let item = strip field in if is_empty item then rest else item ∷ rest

unfoldable pub to_spop_list : List Text → Text
unfolding join strip_all
to_spop_list items = join (strip_all items)

unfoldable pub from_spop_list : Text → List Text
unfolding split strip_fields
from_spop_list items = strip_fields (split comma items)
