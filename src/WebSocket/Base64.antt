-- ===== src/WebSocket/Base64.antt =====
-- `Base64Encode`, `Base64Value` and `IsValidWebSocketKey`
pub mod RoundTrip
pub mod Key
use iocp_engine.Base.{
  ℕ, suc, ◌+◌, ◌-◌, ◌*◌, ◌/◌, ◌%◌, ◌^◌, bit_and, bit_or, Bool, true, false, not, ◌&&◌, ◌||◌, Option,
  none, some, List, [], ◌∷◌, ◌==◌, leb, if◌then◌else◌, length, get_or, drop,
}
use iocp_engine.Base.Text.{ascii}

abbrev pub alphabet : List ℕ
alphabet = ascii "ABCDEFGHIJKLMNOPQRSTUVWXYZabcdefghijklmnopqrstuvwxyz0123456789+/"

-- `Alphabet[(value >> k) & 0x3fU]`
unfoldable pub letter : ℕ → ℕ → ℕ
letter value k = get_or alphabet (bit_and (value / 2 ^ k) 0x3f) 0

-- One round of the loop for each group of three bytes, or for the last one or two.
unfoldable pub base64_encode : List ℕ → List ℕ
base64_encode [] = []
base64_encode (a ∷ []) =
    let value : ℕ = a * 2 ^ 16 in letter value 18 ∷ letter value 12 ∷ b'=' ∷ b'=' ∷ []
base64_encode (a ∷ b ∷ []) =
    let value : ℕ = bit_or (a * 2 ^ 16) (b * 2 ^ 8) in
    letter value 18 ∷ letter value 12 ∷ letter value 6 ∷ b'=' ∷ []
base64_encode (a ∷ b ∷ c ∷ rest) =
    let value : ℕ = bit_or (bit_or (a * 2 ^ 16) (b * 2 ^ 8)) c in
    letter value 18 ∷ letter value 12 ∷ letter value 6 ∷ letter value 0 ∷ base64_encode rest

-- `none` is -1.
unfoldable pub base64_value : ℕ → Option ℕ
base64_value value =
    if leb b'A' value && leb value b'Z'
    then some (value - b'A')
    else if leb b'a' value && leb value b'z'
    then some (value - b'a' + 26)
    else if leb b'0' value && leb value b'9'
    then some (value - b'0' + 52)
    else if value == b'+'
    then some 62
    else if value == b'/'
    then some 63
    else none

-- The loop over the key, with `bits` and `decoded`. The accumulator is written and never read.
unfoldable pub count_decoded : List ℕ → ℕ → ℕ → Option ℕ
count_decoded [] bits decoded = some decoded
count_decoded (value ∷ key) bits decoded =
    let rest =
      count_decoded key (if leb 8 (bits + 6) then bits + 6 - 8 else bits + 6)
        (if leb 8 (bits + 6) then decoded + 1 else decoded) in
    if value == b'='
    then some decoded
    else elim (base64_value value) [ none ↦ none | some digit ↦ rest ]

abbrev pub is_sixteen : Option ℕ → Bool
is_sixteen none = false
is_sixteen (some n) = n == 16

unfoldable pub is_valid_web_socket_key : List ℕ → Bool
is_valid_web_socket_key key =
    if not (length key == 24) || not (get_or key 22 0 == b'=') || not (get_or key 23 0 == b'=')
    then false
    else is_sixteen (count_decoded key 0 0)
