-- ===== src/Address/Rejects.antt =====
-- How `parse_bit_address` of src/Address.cpp refuses a text.
use plcsim_connector.Common.{
  not, ◌==◌, ◌||◌, is_empty, ltb, Bool, codes, if◌then◌else◌, ℕ, ◌<◌, ◌≡◌, ◌⊎◌, ◌≢◌, ◌∙◌, sym, refl,
  String, true, false, [], ◌∷◌, ◌++◌, arith, inl, inr, Option-cases, Bytes, All,
}
use plcsim_connector.Common.Int.{pos}
use plcsim_connector.Error.{Error, ErrorKind, retryable, Outcome, returned, thrown}
use plcsim_connector.Std.{toupper}
use plcsim_connector.Std.Decimal.{IsDigit, value}
use plcsim_connector.Types.{Area}
use mathlib.Core.Path.{subst}
use plcsim_connector.Address.Numbers.{read_number_too_large}
use plcsim_connector.Address.Grammar.{IsMnemonic, IsSizePrefix}
use plcsim_connector.Address.Stages.{parse_size_prefix_digit}
use plcsim_connector.Address.Visible.{mnemonic-letter, not_data_block, skip_percent_letter}
use plcsim_connector.Address.Accepts.{area_of-mnemonic}
use plcsim_connector.Address.{
  BitAddress, NumberRead, max_u32, invalid_error, trim, area_of, is_data_block, skip_percent,
  check_bit, parse_bit, parse_dot, check_offset, parse_offset, parse_size_prefix, parse_area,
  parse_bit_address, read_number,
}

-- The call returns an address or throws the error of `invalid` about the given input.
abbrev pub ReturnsOrInvalid : Bytes → Outcome BitAddress → Type 0
ReturnsOrInvalid input r =
    ((a : BitAddress) × (r ≡ returned a))
    ⊎ ((reason : String) × (r ≡ thrown (invalid_error input reason)))

module _ (input : Bytes) where
  refuses : (reason : String) → ReturnsOrInvalid input (thrown (invalid_error input reason))
  refuses reason = inr (reason, refl)

  branch :
      (b : Bool) (x y : Outcome BitAddress)
      → ReturnsOrInvalid input x
      → ReturnsOrInvalid input y
      → ReturnsOrInvalid input (if b then x else y)
  branch true x y hx hy = hx
  branch false x y hx hy = hy

  check_bit_ends :
      (area : Area) (byte : ℕ) (r : NumberRead)
      → ReturnsOrInvalid input (check_bit input area byte r)
  unfolding check_bit
  check_bit_ends area byte r = branch (not r.found) _ _ (refuses _) (
      branch (not (is_empty r.rest)) _ _ (refuses _)
        (branch (ltb 7 r.out) _ _ (refuses _) (inl (_, refl))))

  parse_dot_ends :
      (area : Area) (byte : ℕ) (s : Bytes) → ReturnsOrInvalid input (parse_dot input area byte s)
  unfolding parse_dot parse_bit
  parse_dot_ends area byte [] = refuses _
  parse_dot_ends area byte (c ∷ s) =
      branch (not (c == b'.')) _ _ (refuses _) (check_bit_ends area byte (read_number s 0))

  check_offset_ends :
      (area : Area) (r : NumberRead) → ReturnsOrInvalid input (check_offset input area r)
  unfolding check_offset
  check_offset_ends area r =
      branch (not r.found) _ _ (branch (not (is_empty r.rest)) _ _ (refuses _) (refuses _))
        (parse_dot_ends area r.out r.rest)

  parse_size_prefix_ends :
      (area : Area) (s : Bytes) → ReturnsOrInvalid input (parse_size_prefix input area s)
  unfolding parse_size_prefix parse_offset
  parse_size_prefix_ends area [] = check_offset_ends area (read_number [] 0)
  parse_size_prefix_ends area (c ∷ s) =
      branch (toupper c == b'X') _ _ (check_offset_ends area (read_number s 0)) (
        branch (toupper c == b'B' || (toupper c == b'W' || toupper c == b'D')) _ _ (refuses _)
          (check_offset_ends area (read_number (c ∷ s) 0)))

  parse_area_ends : (s : Bytes) → ReturnsOrInvalid input (parse_area input s)
  unfolding parse_area
  parse_area_ends [] = refuses _
  parse_area_ends (c ∷ s) = elim (Option-cases (area_of (toupper c))) [
    | inl unknown ↦ rw (unknown, parse_area) (refuses _)
    | inr (area, known) ↦ rw (known, parse_area) (parse_size_prefix_ends area s)
  ]

-- On every text the parser either returns an address or throws the error of `invalid`, whose
-- message quotes the text; nothing else can happen.
pub parse_ends : (s : Bytes) → ReturnsOrInvalid s (parse_bit_address s)
unfolding parse_bit_address
parse_ends s = branch s (is_empty (trim s)) _ _ (refuses s _) (
    branch s (is_data_block (trim s)) _ _ (refuses s _) (parse_area_ends s (skip_percent (trim s))))

-- What a caller can rely on in an error about the text `s`.
pub record IsAbout (s : Bytes) (e : Error) : Type 0 where
  pub kind : e.kind ≡ ErrorKind.invalid_address
  pub not_retryable : retryable e ≡ false
  pub no_code : e.code ≡ pos 0
  pub no_code_name : e.code_name ≡ []
  pub reason : Bytes
  pub quotes : e.message ≡ codes "invalid PLC address \"" ++ (s ++ (codes "\": " ++ reason))

invalid_error-IsAbout : (s : Bytes) (reason : String) → IsAbout s (invalid_error s reason)
unfolding invalid_error retryable
invalid_error-IsAbout s reason = record {
  kind = refl;
  not_retryable = refl;
  no_code = refl;
  no_code_name = refl;
  reason = codes reason;
  quotes = refl;
}

-- Every error that the parser throws is an InvalidAddress error that must not be retried, carries
-- code 0 and no code name, and quotes the whole text that was given to the parser.
pub parse-thrown-IsAbout : (s : Bytes) (e : Error) → parse_bit_address s ≡ thrown e → IsAbout s e
parse-thrown-IsAbout s e h = elim (parse_ends s) [
  | inl (a, ok) ↦ absurd (cc)
  | inr (reason, bad) ↦
      let same : invalid_error s reason ≡ e = cc in
      subst (IsAbout s) same (invalid_error-IsAbout s reason)
]

module _ (s : Bytes) (area : Area) (ds t : Bytes) (all : All IsDigit ds)
    (large : max_u32 < value ds) where
  abbrev refusal : Outcome BitAddress
  refusal = thrown (invalid_error s "expected a byte offset after the area letter")

  offset_refused : parse_offset s area (ds ++ t) ≡ refusal
  unfolding parse_offset check_offset
  offset_refused =
      let (fails, more) = read_number_too_large ds t 0 all large in rw (fails, more) refl

  plain_refused :
      (u : Bytes) → u ≡ ds → parse_size_prefix s area (u ++ t) ≡ parse_offset s area (u ++ t)
  plain_refused [] e = absurd (large_digits e)
    where
      large_digits : [] ≢ ds
      large_digits e' =
          let small : max_u32 < value [] = subst (λ u. max_u32 < value u) (sym e') large in
          omega arith
  plain_refused (d ∷ u) e =
      parse_size_prefix_digit s area d (u ++ t) (subst (All IsDigit) (sym e) all).0

  sized_refused : (x : Bytes) → IsSizePrefix x → parse_size_prefix s area (x ++ (ds ++ t)) ≡ refusal
  unfolding parse_size_prefix toupper
  sized_refused x (inl nil) = rw nil (plain_refused ds refl ∙ offset_refused)
  sized_refused x (inr (inl big)) = rw big offset_refused
  sized_refused x (inr (inr small)) = rw small offset_refused

  area_refused :
      (x : Bytes) (c : ℕ)
      → IsMnemonic c area
      → IsSizePrefix x
      → parse_area s (c ∷ (x ++ (ds ++ t))) ≡ refusal
  unfolding parse_area
  area_refused x c m prefix = rw (area_of-mnemonic c area m, parse_area) (sized_refused x prefix)

  -- A byte offset of 2^32 or more, behind an area letter, perhaps with a percent sign in front of it and
  -- the size prefix X behind it, is reported as "expected a byte offset after the area letter",
  -- whatever follows it. (The parser's message for an offset that is too large is not reached: the
  -- digit that overflows is still unread.)
  pub too_large_offset :
      (percent x : Bytes) (c : ℕ)
      → (percent ≡ []) ⊎ (percent ≡ codes "%")
      → IsMnemonic c area
      → IsSizePrefix x
      → trim s ≡ percent ++ c ∷ (x ++ (ds ++ t))
      → parse_bit_address s
        ≡ thrown (invalid_error s "expected a byte offset after the area letter")
  unfolding parse_bit_address skip_percent
  too_large_offset percent x c (inl nil) m prefix e =
      let (not_block, not_percent, _) = mnemonic-letter c area m in
      rw
        (
          e,
          nil,
          not_data_block c (x ++ (ds ++ t)) not_block,
          skip_percent_letter c (x ++ (ds ++ t)) not_percent,
        )
        (area_refused x c m prefix)
  too_large_offset percent x c (inr sign) m prefix e =
      rw (e, sign, not_data_block b'%' (c ∷ (x ++ (ds ++ t))) (unfold toupper in omega arith))
        (area_refused x c m prefix)
