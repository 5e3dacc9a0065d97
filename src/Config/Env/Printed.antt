-- ===== src/Config/Env/Printed.antt =====
-- config.py, from_env: a configuration that is printed into an environment is read back.
use Prim.Native.Char.{Char, code}
use Prim.Native.String.{◌++◌ as ◌⧺◌}
use text.Mathlib.TextLemmas.{nil-append, cons-append}
use sb_poc.Prelude.{
  ℕ, ◌≤◌, String, String_eq, ℤ, Bool, true, false, ◌&&◌, not, Option, none, some, List, [], ◌∷◌,
  map, keep_if, ◌==◌, ◌≡◌, refl, ap, ◌∙◌, ℕ_eq, All, length, Result, ok, if◌then◌else◌, arith,
}
use sb_poc.Text.{Unicode, codes, is_space, int_of}
use sb_poc.Text.Stripped.{DigitLaws, int_of-show_int, strip-no_blanks, show_int-no_blanks}
use sb_poc.Hashing.{show_int}
use sb_poc.Config.{Config}
use sb_poc.Config.Env.{
  or_value_error, FloatDefaults, lstrip_text, prepend_unless_blank, rstrip_text, strip_text,
  split_commas, coerce_roles, coerce_bool, coerce_int, configured, from_env,
}

-- No blank and no comma.
abbrev pub is_plain : String → Bool
is_plain String.[] = true
is_plain (String.◌∷◌ c s) = not (is_space (code c)) && (not (code c == b',') && is_plain s)

abbrev pub IsRole : String → Type 0
IsRole r = (is_plain r ≡ true) × ((r == "") ≡ false)

abbrev pub comma_join : List String → String
comma_join [] = ""
comma_join (r ∷ []) = r
comma_join (r ∷ s ∷ rs) = r ⧺ ("," ⧺ comma_join (s ∷ rs))

lstrip-is_plain : (s : String) → is_plain s ≡ true → lstrip_text s ≡ s
unfolding lstrip_text
lstrip-is_plain String.[] h = refl
lstrip-is_plain (String.◌∷◌ c s) h = ground (arith, h)

prepend-is_plain :
    (c : Char) (s : String) → is_space (code c) ≡ false → prepend_unless_blank c s ≡ String.◌∷◌ c s
prepend-is_plain c String.[] h = rw h refl
prepend-is_plain c (String.◌∷◌ d s) h = refl

rstrip-cons :
    (c : Char) (s : String) → rstrip_text (String.◌∷◌ c s) ≡ prepend_unless_blank c (rstrip_text s)
unfolding rstrip_text
rstrip-cons c s = refl

rstrip-nil : rstrip_text "" ≡ ""
unfolding rstrip_text
rstrip-nil = refl

rstrip-is_plain : (s : String) → is_plain s ≡ true → rstrip_text s ≡ s
rstrip-is_plain String.[] h = rstrip-nil
rstrip-is_plain (String.◌∷◌ c s) h =
    rstrip-cons c s
    ∙ ap (prepend_unless_blank c) (rstrip-is_plain s (ground (arith, h)))
    ∙ prepend-is_plain c s (ground (arith, h))

strip-is_plain : (s : String) → is_plain s ≡ true → strip_text s ≡ s
unfolding strip_text
strip-is_plain s h = rw (lstrip-is_plain s h) (rstrip-is_plain s h)

split-is_plain : (s : String) → is_plain s ≡ true → split_commas s ≡ s ∷ []
unfolding split_commas
split-is_plain String.[] h = refl
split-is_plain (String.◌∷◌ c s) h =
    let other : (code c == b',') ≡ false = ground (arith, h) in
    rw (other, split-is_plain s (ground (arith, h))) refl

same_first : (c d : ℕ) → c ∷ [] ≡ d ∷ [] → c ≡ d
same_first c d h = cc

-- A text that is a comma, in front of another.
split_comma : (s t : String) → s ≡ "," → split_commas (s ⧺ t) ≡ "" ∷ split_commas t
unfolding split_commas
split_comma String.[] t h = absurd (cc)
split_comma (String.◌∷◌ c String.[]) t h =
    let comma : (code c == b',') ≡ true = rw (same_first (code c) 44 (ap codes h)) refl in
    ap split_commas (cons-append c "" t ∙ ap (String.◌∷◌ c) (nil-append t)) ∙ rw comma refl
split_comma (String.◌∷◌ c (String.◌∷◌ d s)) t h = absurd (cc)

split-append :
    (s t : String) → is_plain s ≡ true → split_commas (s ⧺ ("," ⧺ t)) ≡ s ∷ split_commas t
unfolding split_commas
split-append String.[] t h = ap split_commas (nil-append ("," ⧺ t)) ∙ split_comma "," t refl
split-append (String.◌∷◌ c s) t h =
    let other : (code c == b',') ≡ false = ground (arith, h) in
    ap split_commas (cons-append c s ("," ⧺ t))
    ∙ rw (other, split-append s t (ground (arith, h))) refl

split-comma_join :
    (r : String) (rs : List String)
    → IsRole r
    → All IsRole rs
    → split_commas (comma_join (r ∷ rs)) ≡ r ∷ rs
split-comma_join r [] h a = split-is_plain r h.0
split-comma_join r (s ∷ rs) h (b, a) =
    split-append r (comma_join (s ∷ rs)) h.0 ∙ ap (◌∷◌ r) (split-comma_join s rs b a)

keep-roles :
    (rs : List String) → All IsRole rs → keep_if (λ p. not (p == "")) (map strip_text rs) ≡ rs
keep-roles [] a = refl
keep-roles (r ∷ rs) (h, a) = rw (strip-is_plain r h.0, h.1) (ap (◌∷◌ r) (keep-roles rs a))

coerce_roles-comma_join : (rs : List String) → All IsRole rs → coerce_roles (comma_join rs) ≡ rs
unfolding coerce_roles split_commas strip_text lstrip_text rstrip_text
coerce_roles-comma_join [] a = refl
coerce_roles-comma_join (r ∷ rs) (h, a) =
    ap (λ ps. keep_if (λ p. not (p == "")) (map strip_text ps)) (split-comma_join r rs h a)
    ∙ keep-roles (r ∷ rs) (h, a)

-- Python reads no integer of more digits.
abbrev pub IsShort : ℤ → Type 0
IsShort z = length (codes (show_int z)) ≤ 4300

coerce_int-show_int :
    (u : Unicode) → DigitLaws u → (z : ℤ) → IsShort z → coerce_int u (show_int z) ≡ ok z
unfolding coerce_int
coerce_int-show_int u laws z short = ap or_value_error (
    ap (int_of u) (strip-no_blanks (codes (show_int z)) (show_int-no_blanks z))
    ∙ int_of-show_int u laws z short)

-- The texts that a flag is printed as.
abbrev pub show_bool : Bool → String
show_bool true = "true"
show_bool false = "false"

-- Both are lower case.
pub record LowerLaws (u : Unicode) : Type 0 where
  pub lower_bool : (b : Bool) → u.lower (show_bool b) ≡ show_bool b

bool-is_plain : (b : Bool) → is_plain (show_bool b) ≡ true
unfolding is_space
bool-is_plain true = refl
bool-is_plain false = refl

coerce_bool-show_bool : (u : Unicode) → LowerLaws u → (b : Bool) → coerce_bool u (show_bool b) ≡ b
unfolding coerce_bool
coerce_bool-show_bool u laws true =
    rw (strip-is_plain "true" (bool-is_plain true), laws.lower_bool true) refl
coerce_bool-show_bool u laws false =
    rw (strip-is_plain "false" (bool-is_plain false), laws.lower_bool false) refl

module _ {F : Type 0} (print_float : F → String) (cfg : Config F) where
  -- The environment that sets every variable to what the configuration has for it.
  unfoldable pub printed_env : String → Option String
  printed_env name =
      if name == "SB_MODEL_NAME"
      then some cfg.model_name
      else if name == "SB_MODEL_REVISION"
      then some cfg.model_revision
      else if name == "SB_MAX_TOKENS"
      then some (show_int cfg.max_tokens)
      else if name == "SB_BATCH_SIZE"
      then some (show_int cfg.batch_size)
      else if name == "SB_EMPTY_TEXT_POLICY"
      then some cfg.empty_text_policy
      else if name == "SB_RECENCY_LAMBDA"
      then some (print_float cfg.recency_lambda)
      else if name == "SB_LABEL_THRESHOLD"
      then some (print_float cfg.label_threshold)
      else if name == "SB_TRAJECTORY_DIVISOR"
      then some (print_float cfg.trajectory_divisor)
      else if name == "SB_MEANINGFUL_MIN_TURNS"
      then some (show_int cfg.meaningful_min_turns)
      else if name == "SB_ROLES_IN_METRICS"
      then some (comma_join cfg.roles_in_metrics)
      else if name == "SB_SCORE_AGENT_TURNS"
      then some (show_bool cfg.score_agent_turns)
      else if name == "SB_LEASE_SECONDS"
      then some (show_int cfg.lease_seconds)
      else if name == "SB_MAX_DELIVERY"
      then some (show_int cfg.max_delivery)
      else if name == "SB_CLAIM_BATCH"
      then some (show_int cfg.claim_batch)
      else if name == "SB_POLL_IDLE_SECONDS"
      then some (print_float cfg.poll_idle_seconds)
      else if name == "SB_DATABASE_URL"
      then some cfg.database_url
      else if name == "SB_SCHEMA_VERSION"
      then some cfg.schema_version
      else none

  -- No integer is longer than Python reads, and every role is a word.
  pub record IsPrintable : Type 0 where
    pub max_tokens : IsShort cfg.max_tokens
    pub batch_size : IsShort cfg.batch_size
    pub min_turns : IsShort cfg.meaningful_min_turns
    pub lease : IsShort cfg.lease_seconds
    pub max_delivery : IsShort cfg.max_delivery
    pub claim_batch : IsShort cfg.claim_batch
    pub roles : All IsRole cfg.roles_in_metrics

-- A configuration whose integers have at most 4300 digits and whose roles are words without blanks and
-- commas is printed into an environment: each of its seventeen fields under the variable that is named
-- for it, the roles with commas between them. It is read back as it was, whatever the defaults are, if
-- a float that is printed is read back, and if the digits and the lower-case letters of ASCII have
-- their usual properties.
pub from_env-printed_env :
    {F : Type 0} (u : Unicode) (digit_laws : DigitLaws u) (lower_laws : LowerLaws u)
    (parse_float : String → Result F) (print_float : F → String) (x : FloatDefaults F)
    (cfg : Config F)
    → ((a : F) → parse_float (print_float a) ≡ ok a)
    → IsPrintable print_float cfg
    → from_env u parse_float x (printed_env print_float cfg) ≡ ok cfg
unfolding from_env configured printed_env
from_env-printed_env u digit_laws lower_laws parse_float print_float x cfg floats p =
    rw
      (
        coerce_int-show_int u digit_laws cfg.max_tokens p.max_tokens,
        coerce_int-show_int u digit_laws cfg.batch_size p.batch_size,
        floats cfg.recency_lambda,
        floats cfg.label_threshold,
        floats cfg.trajectory_divisor,
        coerce_int-show_int u digit_laws cfg.meaningful_min_turns p.min_turns,
        coerce_int-show_int u digit_laws cfg.lease_seconds p.lease,
        coerce_int-show_int u digit_laws cfg.max_delivery p.max_delivery,
        coerce_int-show_int u digit_laws cfg.claim_batch p.claim_batch,
        floats cfg.poll_idle_seconds,
        coerce_roles-comma_join cfg.roles_in_metrics p.roles,
        coerce_bool-show_bool u lower_laws cfg.score_agent_turns,
      )
      refl
