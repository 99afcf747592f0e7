-- ===== src/Metrics/Samples.antt =====
-- The bounded lists of samples of internal/metrics/worker.go. Their texts are byte sequences, and
-- strings.TrimSpace on them is the parameter `trim`.
pub mod Bounds
use daegsa.Prelude.{
  ℕ, zero, suc, ◌+◌, Bool, true, false, List, [], ◌∷◌, ◌++◌, Option, none, some, ◌&&◌, ◌||◌, not,
  ltb, if◌then◌else◌, length, any, take,
}
use daegsa.Prelude.Text.{Text, codes, text_eq}
use daegsa.Prelude.Word.{inc64, add64}

abbrev pub max_error_samples : ℕ
max_error_samples = 10

abbrev pub max_rate_limit_samples : ℕ
max_rate_limit_samples = 10

abbrev pub max_error_message_length : ℕ
max_error_message_length = 256

pub record ErrorSample : Type 0 where
  pub message : Text
  pub class : Text
  pub count : ℕ

pub record RateLimitHeaderSample : Type 0 where
  pub limit : Text
  pub remaining : Text
  pub reset : Text
  pub policy : Text

abbrev pub same_error : Text → Text → ErrorSample → Bool
same_error message class s = text_eq s.message message && text_eq s.class class

abbrev pub prepend : ErrorSample → Option (List ErrorSample) → Option (List ErrorSample)
prepend s none = none
prepend s (some l) = some (s ∷ l)

-- The list with `n` more of the first sample of this message and class, if there is one.
unfoldable pub add_to_sample : Text → Text → ℕ → List ErrorSample → Option (List ErrorSample)
add_to_sample message class n [] = none
add_to_sample message class n (s ∷ l) =
    let rest = prepend s (add_to_sample message class n l) in
    if same_error message class s then some (record s { count = add64 s.count n } ∷ l) else rest

-- A sample that is not in the list is appended while there is room.
pub insert_sample : ErrorSample → List ErrorSample → Option (List ErrorSample) → List ErrorSample
insert_sample s l (some l') = l'
insert_sample s l none = if ltb (length l) max_error_samples then l ++ s ∷ [] else l

-- The sample's count is added to one of its message and class, or the sample is appended.
unfoldable pub merge_error_sample : ErrorSample → List ErrorSample → List ErrorSample
unfolding insert_sample
merge_error_sample s l = insert_sample s l (add_to_sample s.message s.class s.count l)

unfoldable pub clean_message : (Text → Text) → Text → Text
clean_message trim message =
    let cleaned = trim message in
    if ltb max_error_message_length (length cleaned)
    then take max_error_message_length cleaned ++ codes "..."
    else cleaned

unfoldable pub record_error_sample :
    (Text → Text) → Text → Text → List ErrorSample → List ErrorSample
record_error_sample trim message class l =
    merge_error_sample (record { message = clean_message trim message; class = class; count = 1 }) l

abbrev pub contains_string : List Text → Text → Bool
contains_string l v = any (λ s. text_eq s v) l

abbrev pub same_header : RateLimitHeaderSample → RateLimitHeaderSample → Bool
same_header s t =
    text_eq s.limit t.limit
    && text_eq s.remaining t.remaining
    && text_eq s.reset t.reset
    && text_eq s.policy t.policy

-- A sample is kept while there is room, unless it is there already.
unfoldable pub keep_sample {ℓ} : {A : Type ℓ} → (A → A → Bool) → A → List A → List A
keep_sample same v l =
    if ltb (length l) max_rate_limit_samples && not (any (λ s. same s v) l) then l ++ v ∷ [] else l

unfoldable pub keep_samples {ℓ} : {A : Type ℓ} → (A → A → Bool) → List A → List A → List A
keep_samples same [] l = l
keep_samples same (v ∷ vs) l = keep_samples same vs (keep_sample same v l)
