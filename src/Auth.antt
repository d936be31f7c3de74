-- ===== src/Auth.antt =====
-- src/auth.rs: join tickets. A text is cut, encoded and signed by crates, whose functions are the
-- parameters `Codec`; a sequence of bytes is of some type that they agree on.
pub mod Minted
use bridge_table_service.Prelude.{
  Bool, Option, Result, String, expect, false, guard, ltb, not, ok, true, ℕ, ◌>>=◌, ◌>>◌,
}

-- An `i64`, of which only the order is used.
pub data ℤ : Type 0 where
  pos : ℕ → ℤ
  negsuc : ℕ → ℤ

-- `a < b`
pub ltz : ℤ → ℤ → Bool
ltz (pos m) (pos n) = ltb m n
ltz (pos m) (negsuc n) = false
ltz (negsuc m) (pos n) = true
ltz (negsuc m) (negsuc n) = ltb n m

-- `Ticket`; `exp` is in seconds since 1970, as is `now`.
pub record Ticket : Type 0 where
  pub sub : String
  pub name : String
  pub session_id : String
  pub role : String
  pub exp : ℤ

-- `TicketError`
pub data TicketError : Type 0 where
  malformed bad_signature expired : TicketError

-- What the service calls of the crates.
pub record Codec : Type 1 where
  pub Bytes : Type 0
  -- `token.split_once('.')`
  pub split_once : String → Option (String × String)
  -- `format!("{payload_b64}.{sig_b64}")`
  pub join : String → String → String
  -- `URL_SAFE_NO_PAD.encode` and `decode`
  pub encode : Bytes → String
  pub decode : String → Option Bytes
  -- `serde_json::to_vec` and `from_slice`
  pub to_vec : Ticket → Bytes
  pub from_slice : Bytes → Option Ticket
  -- `HmacSha256` by the secret, of a text, and `verify_slice` of a signature
  pub sign : String → String → Bytes
  pub verify_slice : String → String → Bytes → Bool

module _ (c : Codec) where
  -- `verify_ticket_at`; a key of any length makes a MAC.
  unfoldable pub verify_ticket_at : String → String → ℤ → Result TicketError Ticket
  unfolding ltz
  verify_ticket_at token secret now = do
    (payload_b64, sig_b64) ← expect (c.split_once token) malformed
    sig ← expect (c.decode sig_b64) malformed
    guard (c.verify_slice secret payload_b64 sig) bad_signature
    payload ← expect (c.decode payload_b64) malformed
    ticket ← expect (c.from_slice payload) malformed
    guard (not (ltz ticket.exp now)) expired
    ok ticket

  -- `mint_ticket`
  pub mint_ticket : Ticket → String → String
  mint_ticket ticket secret =
      let payload_b64 = c.encode (c.to_vec ticket) in
      c.join payload_b64 (c.encode (c.sign secret payload_b64))
