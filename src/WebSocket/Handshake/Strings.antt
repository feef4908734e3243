-- ===== src/WebSocket/Handshake/Strings.antt =====
-- The functions of `std::string_view` that the handshake uses, `Trim`, `Lower` and `ContainsToken`.
-- Where the source has `npos`, the number `npos` stands here.
use iocp_engine.Base.{
  ℕ, zero, suc, ◌+◌, ◌-◌, Bool, true, false, ◌&&◌, ◌||◌, List, [], ◌∷◌, ◌==◌, leb, if◌then◌else◌,
  take, drop, map,
}
use iocp_engine.Base.Size.{size_mod}
use iocp_engine.Base.Text.{starts_with}
use iocp_engine.Base.Keyed.{same_list, number_key, text_key}
use iocp_engine.Base.Keyed as Keyed

abbrev pub npos : ℕ
npos = size_mod - 1

-- `find`, where the text begins at `offset`.
unfoldable pub find : List ℕ → List ℕ → ℕ → ℕ
find pattern [] offset = npos
find pattern (c ∷ text) offset =
    let rest = find pattern text (offset + 1) in
    if starts_with (c ∷ text) pattern then offset else rest

unfoldable pub find_from : List ℕ → List ℕ → ℕ → ℕ
find_from pattern text position = find pattern (drop position text) position

abbrev pub substr : List ℕ → ℕ → ℕ → List ℕ
substr text position count = take count (drop position text)

abbrev pub is_blank : ℕ → Bool
is_blank c = c == b' ' || c == b'\t'

unfoldable pub trim_front : List ℕ → List ℕ
trim_front [] = []
trim_front (c ∷ value) = let rest = trim_front value in if is_blank c then rest else c ∷ value

unfoldable pub trim_back : List ℕ → List ℕ
trim_back [] = []
trim_back (c ∷ value) =
    if is_blank c && Keyed.same_list (trim_back value) [] then [] else c ∷ trim_back value

abbrev pub trim : List ℕ → List ℕ
trim value = trim_back (trim_front value)

-- `std::tolower` of the locale "C".
unfoldable pub to_lower : ℕ → ℕ
to_lower c = if leb b'A' c && leb c b'Z' then c + 32 else c

abbrev pub lower : List ℕ → List ℕ
lower value = map to_lower value

-- The list is cut at each comma.
unfoldable pub contains_token : ℕ → List ℕ → List ℕ → Bool
contains_token zero value expected = false
contains_token (suc fuel) value expected =
    let separator : ℕ = find (b',' ∷ []) value 0 in
    let rest = contains_token fuel (drop (separator + 1) value) expected in
    if same_list value []
    then false
    else if same_list (lower (trim (substr value 0 separator))) (lower expected)
    then true
    else if separator == npos
    then false
    else rest
