-- ===== src/Proxy/Spoofing.antt =====
-- What a caller can put in front of the value of X-Forwarded-For changes nothing.
use mathlib.Core.List.{reverse-append}
use Prim.Native.String.{char_at, ◌++◌ as append}
use text.Mathlib.TextLemmas
use fastapi_chassis.Base.{String, some, List, [], ◌∷◌, ◌++◌, ◌≡◌, refl, ap, ◌∙◌, arith}
use fastapi_chassis.Base.Text.{split_on, split_on-append}
use fastapi_chassis.Proxy.{IpAddresses, candidates, first_untrusted, forwarded_for}

comma_cons : (t : String) → append "," t ≡ String.◌∷◌ (char_at "," 0) t
comma_cons t =
    TextLemmas.cons-append (char_at "," 0) "" t
    ∙ ap (String.◌∷◌ (char_at "," 0)) (TextLemmas.nil-append t)

split_comma :
    (s t : String)
    → split_on (char_at "," 0) (append s (append "," t))
      ≡ split_on (char_at "," 0) s ++ split_on (char_at "," 0) t
split_comma s t =
    ap (λ u. split_on (char_at "," 0) (append s u)) (comma_cons t)
    ∙ split_on-append (char_at "," 0) s t

module _ (ip : IpAddresses) (trusted : List (ip.Network)) where
  candidates-append :
      (ps qs : List String) → candidates ip (ps ++ qs) ≡ candidates ip ps ++ candidates ip qs
  unfolding candidates
  candidates-append [] qs = refl
  candidates-append (p ∷ ps) qs = ground (arith, candidates-append ps qs)

  -- The first client among the later candidates decides.
  first_untrusted-append :
      (cs ds : List String) (c : String)
      → first_untrusted ip trusted cs ≡ some c
      → first_untrusted ip trusted (cs ++ ds) ≡ some c
  unfolding first_untrusted
  first_untrusted-append [] ds c e = absurd (ground arith)
  first_untrusted-append (d ∷ cs) ds c e = ground (arith, first_untrusted-append cs ds c)

  -- If the value `real` of X-Forwarded-For names a client, then so does any value that has `real`
  -- behind a comma and other text: the same client.
  pub forwarded_for_prefix :
      (spoofed real c : String)
      → forwarded_for ip trusted real ≡ some c
      → forwarded_for ip trusted (append spoofed (append "," real)) ≡ some c
  unfolding forwarded_for
  forwarded_for_prefix spoofed real c e =
      rw (split_comma spoofed real, candidates-append, reverse-append)
        (first_untrusted-append _ _ c e)
