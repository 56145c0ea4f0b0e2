-- ===== src/Security/Integrity/Chain.antt =====
-- What backend/app/security/integrity.py checks of one stream: the events form a chain of MACs.
use mathlib.Core.Bool.{false}
use kosmohack_final.Security.Framing.{framed_unambiguous}
use kosmohack_final.Models.Log.{RawEvent, Bytes}
use kosmohack_final.Security.Integrity.{
  integrity_metadata, check_events, compare_digest, Primitives, compute_integrity_mac,
}
use kosmohack_final.Prelude.{
  refl, sym, ◌∙◌, ==→eq, subst, ==_refl, ◌==◌, ◌^◌, arith, map, true, suc, ◌<◌, [], All, not,
  cons_if, length, ◌∷◌, ◌≡◌, List, Text, ℕ, Bool,
}

-- The chain that a stream of events has to be: consecutive numbers, each event linked to the MAC
-- before it, and its own MAC over its content.
abbrev pub IsChain : Primitives → ℕ → Bytes → List RawEvent → Type 0
IsChain prims seq previous [] = Unit
IsChain prims seq previous (e ∷ es) =
    (e.integrity_seq ≡ seq)
    × (e.prev_integrity_mac ≡ previous)
    × (compute_integrity_mac prims e ≡ e.integrity_mac)
    × IsChain prims (suc seq) e.integrity_mac es

abbrev pub last_mac : Bytes → List RawEvent → Bytes
last_mac previous [] = previous
last_mac previous (e ∷ es) = last_mac e.integrity_mac es

-- What an event's MAC protects, as it is signed.
abbrev pub SignedContent : Type 0
SignedContent = Bytes × Bytes × Bytes × Bytes

abbrev pub signed_content : Primitives → RawEvent → SignedContent
signed_content prims e = (
  prims.json_bytes (integrity_metadata e),
  e.payload_ciphertext,
  e.nonce,
  prims.utf8 e.crypto_key_id,
)

-- The lengths fit their fields of the frame.
abbrev pub Fits : Primitives → RawEvent → Type 0
Fits prims e =
    (length e.prev_integrity_mac < 256 ^ 4)
    × (length (prims.json_bytes (integrity_metadata e)) < 256 ^ 4)
    × (length e.payload_ciphertext < 256 ^ 8)
    × (length e.nonce < 256 ^ 4)

compare_digest→eq : (a b : Bytes) → compare_digest a b ≡ true → a ≡ b
compare_digest→eq [] [] h = refl
compare_digest→eq [] (y ∷ ys) h = ground arith
compare_digest→eq (x ∷ xs) [] h = ground arith
compare_digest→eq (x ∷ xs) (y ∷ ys) h = ground (arith, compare_digest→eq xs ys)

compare_digest_refl : (a : Bytes) → compare_digest a a ≡ true
compare_digest_refl [] = refl
compare_digest_refl (x ∷ xs) = ground (arith, ==_refl x, compare_digest_refl xs)

cons_if_nil :
    {A : Type 0} (b : Bool) (x : A) (xs : List A)
    → cons_if (not b) x xs ≡ []
    → (b ≡ true) × (xs ≡ [])
cons_if_nil true x xs e = (refl, e)
cons_if_nil false x xs e = absurd (ground arith)

pub check_events→IsChain :
    (prims : Primitives) (id : Text) (seq : ℕ) (previous : Bytes) (es : List RawEvent)
    → check_events prims id seq previous es ≡ []
    → IsChain prims seq previous es
check_events→IsChain prims id seq previous [] h = tt
check_events→IsChain prims id seq previous (e ∷ es) h =
    let a = cons_if_nil (e.integrity_seq == seq) _ _ h in
    let b = cons_if_nil (compare_digest e.prev_integrity_mac previous) _ _ a.1 in
    let c = cons_if_nil (compare_digest (compute_integrity_mac prims e) e.integrity_mac) _ _ b.1 in
    (
      ==→eq _ _ a.0,
      compare_digest→eq _ _ b.0,
      compare_digest→eq _ _ c.0,
      check_events→IsChain prims id (suc seq) e.integrity_mac es c.1,
    )

pub IsChain→check_events :
    (prims : Primitives) (id : Text) (seq : ℕ) (previous : Bytes) (es : List RawEvent)
    → IsChain prims seq previous es
    → check_events prims id seq previous es ≡ []
IsChain→check_events prims id seq previous [] h = refl
IsChain→check_events prims id seq previous (e ∷ es) h =
    let a : (e.integrity_seq == seq) ≡ true = ground arith in
    let b : compare_digest e.prev_integrity_mac previous ≡ true =
      subst (λ p. compare_digest e.prev_integrity_mac p ≡ true) h.1
        (compare_digest_refl e.prev_integrity_mac) in
    let c : compare_digest (compute_integrity_mac prims e) e.integrity_mac ≡ true =
      subst (λ p. compare_digest (compute_integrity_mac prims e) p ≡ true) h.2
        (compare_digest_refl (compute_integrity_mac prims e)) in
    rw (a, b, c) (IsChain→check_events prims id (suc seq) e.integrity_mac es h.3)

-- Tampering shows: two histories of a stream that both pass the check, with as many events and the
-- same last MAC, hold the same signed content event by event, as long as HMAC does not collide under
-- the key and the lengths fit the frame.
pub tamper_evident :
    (prims : Primitives) (seq : ℕ) (previous previous' : Bytes) (es es' : List RawEvent)
    → ((m m' : Bytes)
        → prims.hmac_sha256 prims.integrity_key m ≡ prims.hmac_sha256 prims.integrity_key m'
        → m ≡ m')
    → All (Fits prims) es
    → All (Fits prims) es'
    → length es ≡ length es'
    → IsChain prims seq previous es
    → IsChain prims seq previous' es'
    → last_mac previous es ≡ last_mac previous' es'
    → (map (signed_content prims) es ≡ map (signed_content prims) es') × (previous ≡ previous')
unfolding compute_integrity_mac
tamper_evident prims seq p p' [] [] free f f' len c c' last = (refl, last)
tamper_evident prims seq p p' [] (e ∷ es') free f f' len c c' last = absurd (omega arith)
tamper_evident prims seq p p' (e ∷ es) [] free f f' len c c' last = absurd (omega arith)
tamper_evident prims seq p p' (e ∷ es) (e' ∷ es') free f f' len c c' last =
    let ih =
      tamper_evident prims (suc seq) e.integrity_mac e'.integrity_mac es es' free f.1 f'.1
        (omega arith) c.3 c'.3 last in
    let same = free _ _ (c.2 ∙ ih.1 ∙ sym c'.2) in
    let parts =
      framed_unambiguous _ _ _ _ _ _ _ _ _ _ f.0.0 f'.0.0 f.0.1 f'.0.1 f.0.2 f'.0.2 f.0.3 f'.0.3
        same in
    (cc (ih.0, parts.1, parts.2, parts.3, parts.4), sym c.1 ∙ parts.0 ∙ c'.1)
