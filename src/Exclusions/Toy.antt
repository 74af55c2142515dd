-- ===== src/Exclusions/Toy.antt =====
-- An encoding of exclusions that loses nothing, in place of JSON (internal/engine/exclusions.go).
use rightsizer.Prelude.{
  ℕ, zero, suc, ◌≡◌, refl, Option, none, some, List, [], ◌∷◌, ◌++◌, length, map, ℤ, pos, negsuc,
}
use mathlib.Core.Path.{subst}
use rightsizer.Text.{Text}
use rightsizer.Text.Fields.{◌>>=◌, encode_text, decode_text, decode_text-encode}
use rightsizer.Recommend.Data.{
  Kind, cpu_over, cpu_under, mem_over, mem_under, idle, powered_off, old_snap, thick_disk, orphan,
  wide_vm, co_stop_high,
}
use rightsizer.Recommend.Exclusions.{Exclusion, tag}
use rightsizer.Exclusions.{Codec}
use rightsizer.Exclusions.Stored.{IsFaithful}

abbrev nth : ℕ → List Kind → Kind
nth n [] = co_stop_high
nth zero (k ∷ ks) = k
nth (suc n) (k ∷ ks) = nth n ks

abbrev kinds : List Kind
kinds =
    cpu_over ∷ cpu_under ∷ mem_over ∷ mem_under ∷ idle ∷ powered_off ∷ old_snap ∷ thick_disk
    ∷ orphan ∷ wide_vm ∷ co_stop_high ∷ []

abbrev kind_of : ℕ → Kind
kind_of n = nth n kinds

nth-tag : (k : Kind) → kind_of (tag k) ≡ k
nth-tag cpu_over = refl
nth-tag cpu_under = refl
nth-tag mem_over = refl
nth-tag mem_under = refl
nth-tag idle = refl
nth-tag powered_off = refl
nth-tag old_snap = refl
nth-tag thick_disk = refl
nth-tag orphan = refl
nth-tag wide_vm = refl
nth-tag co_stop_high = refl

kind_of-tag : (ks : List Kind) → map kind_of (map tag ks) ≡ ks
kind_of-tag [] = refl
kind_of-tag (k ∷ ks) = simp (nth-tag k, kind_of-tag ks)

abbrev encode_int : ℤ → Text
encode_int (pos n) = 0 ∷ n ∷ []
encode_int (negsuc n) = 1 ∷ n ∷ []

abbrev decode_int : Text → ℤ
decode_int (zero ∷ n ∷ t) = pos n
decode_int (suc s ∷ n ∷ t) = negsuc n
decode_int _ = pos 0

decode_int-encode : (z : ℤ) → decode_int (encode_int z) ≡ z
decode_int-encode (pos n) = refl
decode_int-encode (negsuc n) = refl

abbrev encode : List Exclusion → Text
encode [] = []
encode (x ∷ xs) =
    encode_text x.id
    ++ (encode_text x.v_center
        ++ (encode_text x.uuid
            ++ (encode_text x.name
                ++ (encode_text x.path
                    ++ (encode_text (map tag x.kinds)
                        ++ (encode_text x.reason
                            ++ (encode_text x.note
                                ++ (encode_text (encode_int x.created)
                                    ++ (encode_text (encode_int x.review_by) ++ encode xs)))))))))

abbrev decode : ℕ → Text → Option (List Exclusion)
decode zero t = some []
decode (suc n) t = do
  (i, r0) ← decode_text t
  (c, r1) ← decode_text r0
  (u, r2) ← decode_text r1
  (m, r3) ← decode_text r2
  (p, r4) ← decode_text r3
  (k, r5) ← decode_text r4
  (s, r6) ← decode_text r5
  (o, r7) ← decode_text r6
  (d, r8) ← decode_text r7
  (v, r9) ← decode_text r8
  xs ← decode n r9
  some (
      record {
        id = i;
        v_center = c;
        uuid = u;
        name = m;
        path = p;
        kinds = map kind_of k;
        reason = s;
        note = o;
        created = decode_int d;
        review_by = decode_int v;
      }
      ∷ xs)

abbrev decode_counted : Text → Option (List Exclusion)
decode_counted [] = none
decode_counted (n ∷ t) = decode n t

abbrev pub fields : Codec
fields = record { marshal = λ xs. some (length xs ∷ encode xs); unmarshal = decode_counted }

decode-encode : (xs : List Exclusion) → decode (length xs) (encode xs) ≡ some xs
decode-encode [] = refl
decode-encode (x ∷ xs) = simp (decode_text-encode, decode_int-encode, kind_of-tag, decode-encode xs)

abbrev Decodes : List Exclusion → Option Text → Type 0
Decodes xs none = Unit
Decodes xs (some b) = decode_counted b ≡ some xs

pub fields-IsFaithful : IsFaithful fields
fields-IsFaithful xs b m = subst (Decodes xs) m (decode-encode xs)
