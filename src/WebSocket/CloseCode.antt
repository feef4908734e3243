-- ===== src/WebSocket/CloseCode.antt =====
-- `IsValidCloseCode`
use iocp_engine.Base.{
  ℕ, ◌≤◌, ◌≡◌, ◌⊎◌, Bool, true, false, not, ◌&&◌, ◌||◌, arith, ltb, leb, ◌==◌, if◌then◌else◌,
}

unfoldable pub is_valid_close_code : ℕ → Bool
is_valid_close_code code =
    if ltb code 1000 || leb 5000 code
    then false
    else if code == 1004 || code == 1005 || code == 1006 || code == 1015
    then false
    else not (leb 1016 code && leb code 2999)

-- The codes that an endpoint may send: those that RFC 6455 section 7.4.1 and its registry define for
-- the wire, and the ranges for libraries and applications.
abbrev pub Sendable : ℕ → Type 0
Sendable code =
    (1000 ≤ code) × (code ≤ 1003) ⊎ ((1007 ≤ code) × (code ≤ 1014) ⊎ (3000 ≤ code) × (code ≤ 4999))

-- The test accepts exactly 1000 to 1003, 1007 to 1014 and 3000 to 4999.
pub is_valid_close_code_lem :
    (code : ℕ)
    → (is_valid_close_code code ≡ true) × Sendable code
      ⊎ (is_valid_close_code code ≡ false) × ¬ Sendable code
unfolding is_valid_close_code
is_valid_close_code_lem code = ground arith
