-- ===== src/Parameters/Tests.antt =====
-- Sizing parameters with numbers of three decimals in place of float64, and an encoding that loses
-- nothing in place of JSON.
use rightsizer.Prelude.{
  ℕ, zero, suc, ◌≡◌, refl, ◌⊎◌, Bool, true, false, ◌&&◌, Option, none, some, [], ◌∷◌, ◌++◌, ℤ, pos,
  negsuc, ok, err,
}
use mathlib.Core.Path.{subst}
use rightsizer.Floats.Decimal.{thousandths}
use rightsizer.Text.{Text, codes}
use rightsizer.Text.Equality.{text_eq}
use rightsizer.Text.Fields.{◌>>=◌, encode_text, decode_text, decode_text-encode}
use rightsizer.Text.Strings.{split, cut, trim_space}
use rightsizer.Atomicfile.Outcome.{published, settled}
use rightsizer.Vault.Toy.{no_faults}
use rightsizer.Recommend.Exclusions.{Matching}
use rightsizer.Parameters.{
  SizingParams, default_sizing, Codec, Kept, parse_groups, validate, growth, set_sizing_params,
}
use rightsizer.Parameters.Stored.{IsFaithful, IsStored, IsUnstored, set_sizing_params_outcome}

abbrev plain : Matching
plain = record { to_lower = λ t. t; equal_fold = text_eq; glob = λ p t. some (text_eq p t) }

databases :
    parse_groups plain (codes "db = sql*, ora*;")
    ≡ ok (record { name = codes "db"; patterns = codes "sql*" ∷ codes "ora*" ∷ [] } ∷ [])
unfolding parse_groups split cut trim_space
databases = refl

abbrev sign : ℤ → ℕ
sign (pos n) = 0
sign (negsuc n) = 1

abbrev size : ℤ → ℕ
size (pos n) = n
size (negsuc n) = n

abbrev int_of : ℕ → ℕ → ℤ
int_of zero n = pos n
int_of (suc s) n = negsuc n

int_of-sign : (z : ℤ) → int_of (sign z) (size z) ≡ z
int_of-sign (pos n) = refl
int_of-sign (negsuc n) = refl

abbrev flag : Bool → ℕ
flag true = 1
flag false = 0

abbrev is_one : ℕ → Bool
is_one zero = false
is_one (suc n) = true

is_one-flag : (b : Bool) → is_one (flag b) ≡ b
is_one-flag true = refl
is_one-flag false = refl

abbrev encode : SizingParams thousandths → Text
encode p =
    encode_text p.basis
    ++ (flag p.powered_off
        ∷ p.growth
        ∷ p.ratio
        ∷ p.cpu_target
        ∷ p.mem_target
        ∷ sign p.spares
        ∷ size p.spares
        ∷ sign p.sockets
        ∷ size p.sockets
        ∷ p.uplift
        ∷ p.free_space
        ∷ p.groups)

abbrev params_of : Text → Text → Option (SizingParams thousandths)
params_of b (o ∷ g ∷ r ∷ c ∷ m ∷ s ∷ n ∷ t ∷ k ∷ u ∷ f ∷ gs) = some (record {
  basis = b;
  powered_off = is_one o;
  growth = g;
  ratio = r;
  cpu_target = c;
  mem_target = m;
  spares = int_of s n;
  sockets = int_of t k;
  uplift = u;
  free_space = f;
  groups = gs;
})
params_of b _ = none

abbrev decode : Text → Option (SizingParams thousandths)
decode t = do (b, r) ← decode_text t; params_of b r

abbrev fields : Codec thousandths
fields = record { marshal = λ p. some (encode p); unmarshal = decode }

decode-encode : (p : SizingParams thousandths) → decode (encode p) ≡ some p
decode-encode p = simp (decode_text-encode, int_of-sign, is_one-flag)

abbrev Decodes : SizingParams thousandths → Option Text → Type 0
Decodes p none = Unit
Decodes p (some b) = decode b ≡ some p

fields-IsFaithful : IsFaithful thousandths fields plain
fields-IsFaithful p b m = subst (Decodes p) m (decode-encode p)

abbrev standard : Kept thousandths
standard = record {
  sizing = default_sizing thousandths;
  disk = record { current = none; durable = none; tmp = none };
}

abbrev faster : SizingParams thousandths
faster = record (default_sizing thousandths) { uplift = 15000; groups = codes "db=sql*" }

too_fast : validate thousandths plain (record faster { growth = 301000 }) ≡ err growth
unfolding validate
too_fast = refl

set_sizing_params_outcome_example :
    let o = set_sizing_params thousandths fields plain no_faults faster standard in
    (IsStored thousandths fields plain faster o
      ⊎ IsUnstored thousandths fields plain no_faults standard o)
    × ((b : Text)
        → validate thousandths plain faster ≡ ok tt
        → fields.marshal faster ≡ some b
        → (published no_faults && settled no_faults) ≡ true
        → o.1 ≡ ok tt)
set_sizing_params_outcome_example =
    set_sizing_params_outcome thousandths fields plain fields-IsFaithful no_faults faster standard
