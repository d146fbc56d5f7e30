-- ===== src/InMemory/Utf8.antt =====
-- `utf8.Valid` of Go.
use kubling_providers.Base.{ℕ, Bool, true, ◌&&◌, [], ◌∷◌, Bytes, ltb, leb, nat_beq, if◌then◌else◌}

abbrev between : ℕ → ℕ → ℕ → Bool
between low high c = leb low c && leb c high

abbrev continues : ℕ → Bool
continues c = between 128 191 c

-- the second byte after the first byte of two, of three and of four
abbrev second_of_three : ℕ → ℕ → Bool
second_of_three a b =
    if nat_beq a 224
    then between 160 191 b
    else if nat_beq a 237
    then between 128 159 b
    else continues b

abbrev second_of_four : ℕ → ℕ → Bool
second_of_four a b =
    if nat_beq a 240
    then between 144 191 b
    else if nat_beq a 244
    then between 128 143 b
    else continues b

unfoldable pub utf8_valid : Bytes → Bool
utf8_valid [] = true
utf8_valid (a ∷ []) = ltb a 128
utf8_valid (a ∷ b ∷ []) = if ltb a 128 then ltb b 128 else between 194 223 a && continues b
utf8_valid (a ∷ b ∷ c ∷ []) =
    let after_one = utf8_valid (b ∷ c ∷ []) in
    if ltb a 128
    then after_one
    else if between 194 223 a
    then continues b && ltb c 128
    else between 224 239 a && (second_of_three a b && continues c)
utf8_valid (a ∷ b ∷ c ∷ d ∷ rest) =
    let after_one = utf8_valid (b ∷ c ∷ d ∷ rest) in
    let after_two = utf8_valid (c ∷ d ∷ rest) in
    let after_three = utf8_valid (d ∷ rest) in
    let after_four = utf8_valid rest in
    if ltb a 128
    then after_one
    else if between 194 223 a
    then continues b && after_two
    else if between 224 239 a
    then second_of_three a b && (continues c && after_three)
    else between 240 244 a && (second_of_four a b && (continues c && (continues d && after_four)))
