-- ===== src/Controls/Transform/Rejections.antt =====
-- The keys that `Key::parse` of models/phoebus/mod.rs rejects, and why.
use alarms_actions_synchroni.Prelude.{
  String, ◌≡◌, ◌≢◌, ◌↔◌, ◌∙◌, ap, none, some, err, arith, Option-cases, inl, inr,
}
use alarms_actions_synchroni.Prelude.Text.{◌++◌, split_once, rsplit_once}
use alarms_actions_synchroni.Prelude.Text.Splitting.{
  Lacks, split_once-append, split_once-inverse, rsplit_once-append,
}
use alarms_actions_synchroni.Models.Phoebus.Key.{
  Key, Operation, parse, parse_operation, get_key_prefix, empty_device, unsupported_operation,
}
use alarms_actions_synchroni.Controls.Transform.{get_phoebus_key}
use alarms_actions_synchroni.Controls.Transform.Keys.{
  join_parts, split_once-get_phoebus_key, parse_operation-get_key_prefix, parse_operation-prefix,
}

-- What a parse has found that stops at an empty device name.
parts_of_empty_device :
    (value : String)
    → parse value ≡ err empty_device
    → (operation : Operation) × (rest display_path : String) × (split_once value ":"
        ≡ some (get_key_prefix operation, rest))
      × (rsplit_once rest "/" ≡ some (display_path, ""))
unfolding parse
parts_of_empty_device value e = elim (Option-cases (split_once value ":")) [
  | inl missed ↦ absurd (ground arith)
  | inr ((operation_str, rest), found) ↦ elim (Option-cases (parse_operation operation_str)) [
    | inl unknown ↦ absurd (ground arith)
    | inr (operation, known) ↦ elim (Option-cases (rsplit_once rest "/")) [
      | inl no_slash ↦ absurd (ground arith)
      | inr ((display_path, device), last) ↦ (
        operation,
        rest,
        display_path,
        ground (arith, parse_operation-prefix operation_str operation),
        ground arith,
      )
    ]
  ]
]

parse_of_empty_device :
    (value rest display_path : String) (operation : Operation)
    → split_once value ":" ≡ some (get_key_prefix operation, rest)
    → rsplit_once rest "/" ≡ some (display_path, "")
    → parse value ≡ err empty_device
unfolding parse
parse_of_empty_device value rest display_path operation first last =
    ground (arith, parse_operation-get_key_prefix operation)

-- A text is rejected for an empty device name exactly when it is the print of a key whose device
-- is empty.
pub parse-empty_device_iff :
    (value : String)
    → (parse value ≡ err empty_device) ↔ (
        (operation : Operation) × (display_path : String) × (value
          ≡ get_phoebus_key operation display_path ""))
parse-empty_device_iff value = (
  λ e.
      let (operation, rest, display_path, first, last) = parts_of_empty_device value e in
      let key : Key = record { device = ""; display_path = display_path; operation = operation } in
      (operation, display_path, (join_parts value rest key first last).0),
  λ (operation, display_path, printed).
      parse_of_empty_device value (display_path ++ "/" ++ "") display_path operation
        (ap (λ (v : String). split_once v ":") printed
          ∙ split_once-get_phoebus_key operation display_path "")
        (rsplit_once-append "/" display_path "" tt),
)

parse_operation-none :
    (s : String) → parse_operation s ≡ none → (operation : Operation) → s ≢ get_key_prefix operation
parse_operation-none s e operation same =
    cc (ap parse_operation same, parse_operation-get_key_prefix operation)

parse_operation_of_unknown :
    (s : String)
    → ((operation : Operation) → s ≢ get_key_prefix operation)
    → parse_operation s ≡ none
parse_operation_of_unknown s unknown = elim (Option-cases (parse_operation s)) [
  | inl e ↦ e
  | inr (operation, e) ↦ absurd (unknown operation (parse_operation-prefix s operation e))
]

-- What a parse has found that stops at the operation.
parts_of_unsupported :
    (value : String)
    → parse value ≡ err unsupported_operation
    → (prefix rest : String) × (split_once value ":" ≡ some (prefix, rest))
      × (prefix ≢ "")
      × (parse_operation prefix ≡ none)
unfolding parse
parts_of_unsupported value e = elim (Option-cases (split_once value ":")) [
  | inl missed ↦ absurd (ground arith)
  | inr ((prefix, rest), found) ↦ (prefix, rest, found, ground arith, ground arith)
]

parse_of_unsupported :
    (value prefix rest : String)
    → split_once value ":" ≡ some (prefix, rest)
    → prefix ≢ ""
    → parse_operation prefix ≡ none
    → parse value ≡ err unsupported_operation
unfolding parse
parse_of_unsupported value prefix rest found named unknown = ground arith

-- A text is rejected for its operation exactly when a text that is not empty, has no colon and is
-- no supported prefix stands before its first colon.
pub parse-unsupported_operation_iff :
    (value : String)
    → (parse value ≡ err unsupported_operation) ↔ (
        (prefix rest : String) × (value ≡ prefix ++ ":" ++ rest)
        × Lacks ":" prefix
        × (prefix ≢ "")
        × ((operation : Operation) → prefix ≢ get_key_prefix operation))
parse-unsupported_operation_iff value = (
  λ e.
      let (prefix, rest, found, named, unknown) = parts_of_unsupported value e in
      let (joined, clean) = split_once-inverse ":" value prefix rest found in
      (prefix, rest, joined, clean, named, parse_operation-none prefix unknown),
  λ (prefix, rest, joined, clean, named, unknown).
      parse_of_unsupported value prefix rest
        (ap (λ (v : String). split_once v ":") joined ∙ split_once-append ":" prefix rest clean)
        named (parse_operation_of_unknown prefix unknown),
)
