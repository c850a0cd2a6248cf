-- ===== src/Chain/Address.antt =====
-- An address survives the trip through a log topic: `pad_address` of app/chain.py against the
-- slice that `decode_transfer_log` takes.
use tilla.Base.{
  ℕ, suc, replicate, ◌≡◌, refl, sym, ap, ◌∙◌, Bool, true, false, not, ◌&&◌, ◌||◌, [], ◌∷◌, ◌++◌,
  arith, ◌==◌, leb, all, length,
}
use tilla.Base.Text.{Text, lower, lower_char, lower_idem, last}
use tilla.Chain.{prefix, remove_prefixes, pad_address, topic_address}

and-true_parts : (x y : Bool) → (x && y) ≡ true → (x ≡ true) × (y ≡ true)
and-true_parts x y h = ground arith

-- `[0-9a-fA-F]`
abbrev pub is_hex : ℕ → Bool
is_hex c = (leb b'0' c && leb c b'9') || ((leb b'a' c && leb c b'f') || (leb b'A' c && leb c b'F'))

-- `^0x[0-9a-fA-F]{40}$`
pub record IsAddress (a digits : Text) : Type 0 where
  pub shape : a ≡ prefix ++ digits
  pub size : length digits ≡ 40
  pub hex : all is_hex digits ≡ true

-- No `x`, which only the prefix has.
abbrev is_plain : ℕ → Bool
is_plain c = not (c == b'x')

lower_char-plain : (c : ℕ) → is_hex c ≡ true → is_plain (lower_char c) ≡ true
unfolding lower_char
lower_char-plain c h = ground arith

lower-plain : (h : Text) → all is_hex h ≡ true → all is_plain (lower h) ≡ true
unfolding lower
lower-plain [] p = refl
lower-plain (c ∷ cs) p =
    let (here, rest) = and-true_parts (is_hex c) _ p in
    rw (lower_char-plain c here) (lower-plain cs rest)

not_a_prefix : (a b : ℕ) → is_plain b ≡ true → ((a == b'0') && (b == b'x')) ≡ false
not_a_prefix a b h = ground arith

remove_prefixes-plain : (t : Text) → all is_plain t ≡ true → remove_prefixes t ≡ t
unfolding remove_prefixes
remove_prefixes-plain [] p = refl
remove_prefixes-plain (a ∷ []) p = refl
remove_prefixes-plain (a ∷ b ∷ cs) p =
    let (first, rest) = and-true_parts (is_plain a) _ p in
    let (second, others) = and-true_parts (is_plain b) (all is_plain cs) rest in
    rw (not_a_prefix a b second) (ap (◌∷◌ a) (remove_prefixes-plain (b ∷ cs) rest))

length-lower : (h : Text) → length (lower h) ≡ length h
unfolding lower
length-lower [] = refl
length-lower (c ∷ cs) = ap suc (length-lower cs)

padded : Text → Text
padded h = prefix ++ (replicate 24 b'0' ++ lower h)

pad_address-eq-padded : (h : Text) → all is_hex h ≡ true → pad_address (prefix ++ h) ≡ padded h
unfolding pad_address padded lower_char
pad_address-eq-padded h p =
    ap (λ (t : Text). prefix ++ (replicate 24 b'0' ++ t))
      (remove_prefixes-plain (lower h) (lower-plain h p))

last-padded : (h : Text) → length h ≡ 40 → last 40 (padded h) ≡ lower h
unfolding padded
last-padded h n = let size : length (lower h) ≡ 40 = length-lower h ∙ n in rw size

lower-prefix : (h : Text) → lower (prefix ++ h) ≡ prefix ++ lower h
unfolding lower lower_char
lower-prefix h = refl

-- The recipient that `decode_transfer_log` reads from the topic of a well-formed address is that
-- address in lower case.
pub topic_address-pad_address :
    (a h : Text) → IsAddress a h → topic_address (pad_address a) ≡ lower a
unfolding topic_address
topic_address-pad_address a h w =
    rw (w.shape, pad_address-eq-padded h w.hex, last-padded h w.size, lower_idem, lower-prefix)

-- Two well-formed addresses have one topic only if they are one address, up to the case of letters.
pad_address-injective :
    (a g b h : Text)
    → IsAddress a g
    → IsAddress b h
    → pad_address a ≡ pad_address b
    → lower a ≡ lower b
pad_address-injective a g b h v w e =
    sym (topic_address-pad_address a g v) ∙ ap topic_address e ∙ topic_address-pad_address b h w
