-- ===== src/Builtins/Text.antt =====
-- src/builtins.rs, `String`, `CString`, `OsString` and `PathBuf`: a text is sent as its bytes.
use crossmist.Common.{ℕ, ap, ap, List, map_id}
use crossmist.Serde.{Object, ok}
use crossmist.Serde.Format.{Format}
use crossmist.Serde.Law.{Law}
use crossmist.Builtins.Pod.{pod_object, pod_format, pod-Law}
use crossmist.Builtins.Scalars.{unsigned_pod, IsUnsigned, IsUnsigned-IsPod}
use crossmist.Builtins.Sequence.{vec, vec_object}
use crossmist.Builtins.Sequence.Transfer.{sequence_format, sequence-Law}
use crossmist.Builtins.Wrapper.{wrapper_object, wrapper_format, wrapper-Law}

abbrev pub u8_object : Object ℕ
u8_object = pod_object (unsigned_pod 1)

abbrev pub u8_format : Format ℕ
u8_format = pod_format (unsigned_pod 1) (IsUnsigned 1)

-- The types hold a vector of bytes, and their conversions check nothing: what makes the bytes a text
-- (UTF-8, no zero byte, …) is `IsText`.
module _ (IsText : List ℕ → Type 0) where
  abbrev pub text_object : Object (List ℕ)
  text_object = wrapper_object (λ text. text) ok (vec_object u8_object)

  abbrev pub text_format : Format (List ℕ)
  text_format = wrapper_format (λ text. text) (λ text. text) IsText (sequence_format vec u8_format)

  pub text-Law : Law text_object text_object text_format
  text-Law =
      wrapper-Law (λ text. text) ok (λ text. text) IsText
        (sequence-Law (pod-Law (unsigned_pod 1) (IsUnsigned-IsPod 1)) vec)
        λ text h. ap ok (map_id text)
