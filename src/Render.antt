-- ===== src/Render.antt =====
-- tools/migration-analyzer/src/migration_analyzer/report.py: a report as markdown, text or JSON.
-- `to_dict` of model.py is here too.
pub mod Markdown
pub mod Plain
pub mod Format
pub mod Sections
pub mod Checklist
pub mod Names
use jenkins_to_actions_migra.Prelude.{
  ℕ, zero, suc, ◌+◌, ◌-◌, Bool, true, false, not, ◌&&◌, ◌||◌, List, [], ◌∷◌, ◌++◌, Option, none,
  some, map, length, filter, flat_map, take, replicate, newline, Text, codes, concat, join, show,
  ltb, leb, ◌==◌, if◌then◌else◌,
}
use jenkins_to_actions_migra.Unicode.{Unicode, is_alnum, to_upper, rstrip}
use jenkins_to_actions_migra.Model.{
  Category, auto, review, manual, drop, value, same, count, summary, Finding, Report,
}
use jenkins_to_actions_migra.Value.{Value, null, string, list, dict, number, items_of, fields_of}
use jenkins_to_actions_migra.Value.Dump.{dump}

-- `_ORDER`
abbrev pub order : List Category
order = manual ∷ review ∷ auto ∷ drop ∷ []

-- `_HEADING`
unfoldable pub heading : Category → Text
heading manual = codes "Needs a decision (no direct equivalent)"
heading review = codes "Has an equivalent, needs configuration or review"
heading auto = codes "Mechanical mapping"
heading drop = codes "Goes away"

-- `Finding.to_dict`
finding_dict : Finding → Value
unfolding value
finding_dict f = dict (
    fields_of (
      (codes "rule", string f.rule)
      ∷ (codes "category", string (value f.category))
      ∷ (codes "line", number f.line)
      ∷ (codes "snippet", string f.snippet)
      ∷ (codes "title", string f.title)
      ∷ (codes "actions_equivalent", string f.actions_equivalent)
      ∷ (codes "note", string f.note)
      ∷ (codes "detail", string f.detail)
      ∷ []))

abbrev texts : List Text → Value
texts ts = list (items_of (map string ts))

abbrev optional : Option Text → Value
optional none = null
optional (some t) = string t

-- `Report.to_dict`
unfoldable pub report_dict : Report → Value
unfolding finding_dict summary
report_dict r = dict (
    fields_of (
      (codes "source", string r.source)
      ∷ (codes "lines", number r.lines)
      ∷ (codes "summary", dict (fields_of (map (λ p. (p.0, number p.1)) (summary r))))
      ∷ (codes "stages", texts r.stages)
      ∷ (codes "shared_library", optional r.shared_library)
      ∷ (codes "shared_library_steps", texts r.shared_library_steps)
      ∷ (codes "plugin_steps", texts r.plugin_steps)
      ∷ (codes "credential_ids", texts r.credential_ids)
      ∷ (codes "findings", list (items_of (map finding_dict r.findings)))
      ∷ []))

unfoldable pub to_json : Report → Text
unfolding report_dict dump
to_json r = dump 0 (report_dict r)

-- `_truncate`; the source calls it with n = 100.
unfoldable pub truncate : Text → ℕ → Text
truncate s n = if leb (length s) n then s else take (n - 1) s ++ codes "…"

module _ ⦃u : Unicode⦄ where
  secret_letter : ℕ → ℕ
  unfolding is_alnum
  secret_letter ch = if is_alnum ch then ch else b'_'

  -- `_secret_name`
  unfoldable pub secret_name : Text → Text
  unfolding secret_letter to_upper
  secret_name credential_id = concat (map to_upper (map secret_letter credential_id))

-- The two boxes of a checklist.
unfoldable pub box : Category → Text
box manual = codes "[ ]"
box review = codes "[ ]"
box auto = codes "[x]"
box drop = codes "[x]"
