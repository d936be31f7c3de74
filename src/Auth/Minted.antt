-- ===== src/Auth/Minted.antt =====
-- Tickets that were minted, and tickets that are accepted (src/auth.rs).
use bridge_table_service.Auth.{
  Codec, Ticket, bad_signature, expired, ltz, malformed, mint_ticket, negsuc, pos, verify_ticket_at,
  ℤ,
}
use bridge_table_service.Prelude.{
  Bool-cases, String, ap, arith, bind-ok, err, expect, expect-ok, false, guard, guard-ok,
  if◌then◌else◌, inl, inr, not, ok, ok-injective, refl, some, subst, true, ◌↔◌, ◌∙◌, ◌≡◌, ◌≤◌,
}

-- The documented behaviour of `Hmac`: what `verify_slice` accepts is what `sign` makes.
pub record IsMac (c : Codec) : Type 0 where
  pub verifies :
      (secret payload : String) (sig : c.Bytes)
      → (c.verify_slice secret payload sig ≡ true) ↔ (sig ≡ c.sign secret payload)

-- The documented behaviour of the encodings: what is encoded is decoded again, and an encoding has no dot
-- in it, so that a token is cut where it was joined.
pub record IsFaithful (c : Codec) : Type 0 where
  pub mac : IsMac c
  pub decodes : (b : c.Bytes) → c.decode (c.encode b) ≡ some b
  pub parses : (t : Ticket) → c.from_slice (c.to_vec t) ≡ some t
  pub splits :
      (a b : c.Bytes)
      → c.split_once (c.join (c.encode a) (c.encode b)) ≡ some (c.encode a, c.encode b)

-- The order of the times.
pub IsAtMost : ℤ → ℤ → Type 0
IsAtMost (pos m) (pos n) = m ≤ n
IsAtMost (pos m) (negsuc n) = true ≡ false
IsAtMost (negsuc m) (pos n) = Unit {0}
IsAtMost (negsuc m) (negsuc n) = n ≤ m

ltz_iff : (a b : ℤ) → (ltz a b ≡ false) ↔ IsAtMost b a
unfolding ltz IsAtMost
ltz_iff (pos m) (pos n) = ((λ h. ground arith), (λ h. ground arith))
ltz_iff (pos m) (negsuc n) = ((λ h. tt), (λ h. refl))
ltz_iff (negsuc m) (pos n) = ((λ h. h), (λ h. h))
ltz_iff (negsuc m) (negsuc n) = ((λ h. ground arith), (λ h. ground arith))

-- What a token that is accepted consists of.
pub record IsSigned (c : Codec) (token secret : String) (now : ℤ) (ticket : Ticket) : Type 0 where
  pub payload_b64 : String
  pub sig_b64 : String
  pub payload : c.Bytes
  pub split : c.split_once token ≡ some (payload_b64, sig_b64)
  pub signed : c.decode sig_b64 ≡ some (c.sign secret payload_b64)
  pub decoded : c.decode payload_b64 ≡ some payload
  pub parsed : c.from_slice payload ≡ some ticket
  pub in_time : IsAtMost now ticket.exp

-- A ticket that was minted is accepted by the same secret, as the ticket that it was, until it expires,
-- and is refused as expired from then on.
pub verify_ticket_at-mint_ticket :
    (c : Codec) (ticket : Ticket) (secret : String) (now : ℤ)
    → IsFaithful c
    → verify_ticket_at c (mint_ticket c ticket secret) secret now
      ≡ (if ltz ticket.exp now then err expired else ok ticket)
unfolding verify_ticket_at mint_ticket
verify_ticket_at-mint_ticket c ticket secret now f =
    let payload_b64 = c.encode (c.to_vec ticket) in
    let genuine : c.verify_slice secret payload_b64 (c.sign secret payload_b64) ≡ true =
      (f.mac.verifies secret payload_b64 (c.sign secret payload_b64)).1 refl in
    rw
      (
        verify_ticket_at,
        f.splits (c.to_vec ticket) (c.sign secret payload_b64),
        f.decodes (c.sign secret payload_b64),
        genuine,
        f.decodes (c.to_vec ticket),
        f.parses ticket,
      )
      (elim (Bool-cases (ltz ticket.exp now)) [ inl e ↦ rw e refl | inr e ↦ rw e refl ])

-- A token is accepted exactly if it is a payload with the signature that the secret gives that payload,
-- the payload reads as the ticket, and the ticket has not expired.
pub verify_ticket_at-ok_iff :
    (c : Codec) (token secret : String) (now : ℤ) (ticket : Ticket)
    → IsMac c
    → (verify_ticket_at c token secret now ≡ ok ticket) ↔ IsSigned c token secret now ticket
unfolding verify_ticket_at
verify_ticket_at-ok_iff c token secret now ticket f = (
  (λ h.
      let ((payload_b64, sig_b64), cut, h1) =
        bind-ok (expect (c.split_once token) malformed) _ ticket h in
      let (sig, read, h2) = bind-ok (expect (c.decode sig_b64) malformed) _ ticket h1 in
      let (u, genuine, h3) =
        bind-ok (guard (c.verify_slice secret payload_b64 sig) bad_signature) _ ticket h2 in
      let (payload, decoded, h4) = bind-ok (expect (c.decode payload_b64) malformed) _ ticket h3 in
      let (t, parsed, h5) = bind-ok (expect (c.from_slice payload) malformed) _ ticket h4 in
      let (u', timely, h6) = bind-ok (guard (not (ltz t.exp now)) expired) _ ticket h5 in
      let same = ok-injective t ticket h6 in
      record {
        payload_b64 = payload_b64;
        sig_b64 = sig_b64;
        payload = payload;
        split = expect-ok _ _ _ cut;
        signed =
            expect-ok _ _ _ read
            ∙ ap some ((f.verifies secret payload_b64 sig).0 (guard-ok _ _ u genuine));
        decoded = expect-ok _ _ _ decoded;
        parsed = expect-ok _ _ _ parsed ∙ ap some same;
        in_time =
            subst (λ (t : Ticket). IsAtMost now t.exp) same
              ((ltz_iff t.exp now).0 (let late = guard-ok _ _ u' timely in ground arith));
      }),
  (λ s.
      let genuine : c.verify_slice secret s.payload_b64 (c.sign secret s.payload_b64) ≡ true =
        (f.verifies secret s.payload_b64 (c.sign secret s.payload_b64)).1 refl in
      let timely : ltz ticket.exp now ≡ false = (ltz_iff ticket.exp now).1 s.in_time in
      rw (verify_ticket_at, s.split, s.signed, genuine, s.decoded, s.parsed, timely) refl),
)
