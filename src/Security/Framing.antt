-- ===== src/Security/Framing.antt =====
-- The frame of backend/app/security/crypto.py: `compute_integrity_mac` joins its fields, each behind
-- its length, before it takes the HMAC. A length that does not fit its field raises in Python; here
-- it is cut, and the theorems ask for lengths that fit.
use Prim.Native.Nat.{zero}
use kosmohack_final.Prelude.{
  pow-suc, refl, sym, ◌%◌, length-append, arith, ◌∙◌, ◌/◌, ◌^◌, ◌∷◌, suc, ◌++◌, [], ◌<◌, ◌≡◌, List,
  ℕ, length,
}
use kosmohack_final.Models.Log.{Bytes}

-- `n.to_bytes(k, "big")`
unfoldable pub to_bytes : (k n : ℕ) → Bytes
to_bytes zero n = []
to_bytes (suc k) n = to_bytes k (n / 256) ++ (n % 256) ∷ []

-- A field behind its length in `k` bytes.
unfoldable pub field : (k : ℕ) → Bytes → Bytes → Bytes
field k value rest = to_bytes k (length value) ++ (value ++ rest)

-- `b"".join(...)`
unfoldable pub framed : (prev_mac metadata ciphertext nonce key_id : Bytes) → Bytes
unfolding field
framed prev_mac metadata ciphertext nonce key_id =
    field 4 prev_mac (field 4 metadata (field 8 ciphertext (field 4 nonce key_id)))

length-to_bytes : (k n : ℕ) → length (to_bytes k n) ≡ k
unfolding to_bytes
length-to_bytes zero n = refl
length-to_bytes (suc k) n =
    omega
      (arith, length-append (to_bytes k (n / 256)) ((n % 256) ∷ []), length-to_bytes k (n / 256))

append-injective {ℓ} :
    {A : Type ℓ} (xs ys zs ws : List A)
    → length xs ≡ length ys
    → xs ++ zs ≡ ys ++ ws
    → (xs ≡ ys) × (zs ≡ ws)
append-injective [] [] zs ws l e = (refl, e)
append-injective [] (y ∷ ys) zs ws l e = absurd (omega arith)
append-injective (x ∷ xs) [] zs ws l e = absurd (omega arith)
append-injective (x ∷ xs) (y ∷ ys) zs ws l e =
    let t : xs ++ zs ≡ ys ++ ws = cc in
    let h : x ≡ y = cc in let r = append-injective xs ys zs ws (omega arith) t in (cc (h, r.0), r.1)

to_bytes-injective : (k n m : ℕ) → n < 256 ^ k → m < 256 ^ k → to_bytes k n ≡ to_bytes k m → n ≡ m
unfolding to_bytes
to_bytes-injective zero n m hn hm e = omega arith
to_bytes-injective (suc k) n m hn hm e =
    let r =
      append-injective (to_bytes k (n / 256)) (to_bytes k (m / 256)) _ _
        (length-to_bytes k (n / 256) ∙ sym (length-to_bytes k (m / 256))) e in
    let low : n % 256 ≡ m % 256 = cc (r.1) in
    let high =
      to_bytes-injective k (n / 256) (m / 256) (omega (arith, pow-suc 256 k))
        (omega (arith, pow-suc 256 k)) r.0 in
    omega (arith, low, high)

field-injective :
    (k : ℕ) (a b rest rest' : Bytes)
    → length a < 256 ^ k
    → length b < 256 ^ k
    → field k a rest ≡ field k b rest'
    → (a ≡ b) × (rest ≡ rest')
unfolding field
field-injective k a b rest rest' ha hb e =
    let r =
      append-injective (to_bytes k (length a)) (to_bytes k (length b)) _ _
        (length-to_bytes k (length a) ∙ sym (length-to_bytes k (length b))) e in
    append-injective a b rest rest' (to_bytes-injective k (length a) (length b) ha hb r.0) r.1

-- No two different sets of fields have one frame, as long as their lengths fit: what is signed
-- tells apart where each field ends.
pub framed_unambiguous :
    (p p' m m' c c' n n' k k' : Bytes)
    → length p < 256 ^ 4
    → length p' < 256 ^ 4
    → length m < 256 ^ 4
    → length m' < 256 ^ 4
    → length c < 256 ^ 8
    → length c' < 256 ^ 8
    → length n < 256 ^ 4
    → length n' < 256 ^ 4
    → framed p m c n k ≡ framed p' m' c' n' k'
    → (p ≡ p') × (m ≡ m') × (c ≡ c') × (n ≡ n') × (k ≡ k')
unfolding framed
framed_unambiguous p p' m m' c c' n n' k k' hp hp' hm hm' hc hc' hn hn' e =
    let a = field-injective 4 p p' _ _ hp hp' e in
    let b = field-injective 4 m m' _ _ hm hm' a.1 in
    let d = field-injective 8 c c' _ _ hc hc' b.1 in
    let f = field-injective 4 n n' k k' hn hn' d.1 in (a.0, b.0, d.0, f.0, f.1)
