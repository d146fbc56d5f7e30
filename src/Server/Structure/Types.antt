-- ===== src/Server/Structure/Types.antt =====
-- Value types compared with `==` (the ValueType enum of the kubling-grpc module).
use kubling_providers.Base.{
  ℕ, ◌≡◌, ◌↔◌, refl, Bool, true, ◌&&◌, List, [], ◌∷◌, some, get_elem?, nat_beq, Eq, arith,
}
use kubling_providers.Messages.{
  ValueType, unknown, string, varbinary, char, boolean, byte, short, integer, long, biginteger,
  float, double, bigdecimal, date, time, timestamp, blob, clob, xml, geometry, geography, json,
  array, other, unrecognized,
}

type_tag : ValueType → ℕ
type_tag unknown = 0
type_tag string = 1
type_tag varbinary = 2
type_tag char = 3
type_tag boolean = 4
type_tag byte = 5
type_tag short = 6
type_tag integer = 7
type_tag long = 8
type_tag biginteger = 9
type_tag float = 10
type_tag double = 11
type_tag bigdecimal = 12
type_tag date = 13
type_tag time = 14
type_tag timestamp = 15
type_tag blob = 16
type_tag clob = 17
type_tag xml = 18
type_tag geometry = 19
type_tag geography = 20
type_tag json = 21
type_tag array = 22
type_tag (other n) = 23
type_tag (unrecognized n) = 24

type_number : ValueType → ℕ
type_number (other n) = n
type_number (unrecognized n) = n
type_number _ = 0

tagged : ℕ → List ValueType
tagged n =
    unknown
    ∷ string
    ∷ varbinary
    ∷ char
    ∷ boolean
    ∷ byte
    ∷ short
    ∷ integer
    ∷ long
    ∷ biginteger
    ∷ float
    ∷ double
    ∷ bigdecimal
    ∷ date
    ∷ time
    ∷ timestamp
    ∷ blob
    ∷ clob
    ∷ xml
    ∷ geometry
    ∷ geography
    ∷ json
    ∷ array
    ∷ other n
    ∷ unrecognized n
    ∷ []

unfoldable pub type_beq : ValueType → ValueType → Bool
unfolding type_tag type_number
type_beq t u = nat_beq (type_tag t) (type_tag u) && nat_beq (type_number t) (type_number u)

tagged-type_tag : (t : ValueType) → get_elem? (tagged (type_number t)) (type_tag t) ≡ some t
unfolding tagged type_tag type_number
tagged-type_tag unknown = refl
tagged-type_tag string = refl
tagged-type_tag varbinary = refl
tagged-type_tag char = refl
tagged-type_tag boolean = refl
tagged-type_tag byte = refl
tagged-type_tag short = refl
tagged-type_tag integer = refl
tagged-type_tag long = refl
tagged-type_tag biginteger = refl
tagged-type_tag float = refl
tagged-type_tag double = refl
tagged-type_tag bigdecimal = refl
tagged-type_tag date = refl
tagged-type_tag time = refl
tagged-type_tag timestamp = refl
tagged-type_tag blob = refl
tagged-type_tag clob = refl
tagged-type_tag xml = refl
tagged-type_tag geometry = refl
tagged-type_tag geography = refl
tagged-type_tag json = refl
tagged-type_tag array = refl
tagged-type_tag (other n) = refl
tagged-type_tag (unrecognized n) = refl

some_injective : {A : Type 0} (a b : A) → some a ≡ some b → a ≡ b
some_injective a b p = cc

pub type_beq_iff : (t u : ValueType) → (type_beq t u ≡ true) ↔ (t ≡ u)
unfolding type_beq
type_beq_iff t u = (
  λ p.
      let same : type_tag t ≡ type_tag u = ground arith in
      let number : type_number t ≡ type_number u = ground arith in
      some_injective t u (cc (tagged-type_tag t, tagged-type_tag u, same, number)),
  λ p. rw p (ground arith),
)

instance abbrev pub type_eq : Eq ValueType
type_eq = record { beq = type_beq; beq_iff = type_beq_iff }
