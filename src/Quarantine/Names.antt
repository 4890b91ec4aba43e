-- ===== src/Quarantine/Names.antt =====
-- `quarantineFileName` of internal/quarantine/quarantine.go: no two records share a body file.
use nexguard.Prelude.{ℕ, ◌≡◌, ap, sym, ◌∙◌}
use nexguard.Prelude.Text.{Text}
use nexguard.Prelude.Text.Decimal.{
  value_from, value_from-decimal, before_dash, after_dash, before_dash-decimal, after_dash-decimal,
}
use nexguard.Quarantine.Defs.{quarantine_file_name}

-- The id and the hash can be read off the name of the body file.
pub quarantine_file_name-injective :
    (i j : ℕ) (g h : Text) → quarantine_file_name i g ≡ quarantine_file_name j h → (i ≡ j) × (g ≡ h)
unfolding quarantine_file_name
quarantine_file_name-injective i j g h e = (
  sym (value_from-decimal i)
      ∙ ap (value_from 0)
          (sym (before_dash-decimal i g) ∙ ap before_dash e ∙ before_dash-decimal j h)
      ∙ value_from-decimal j,
  sym (after_dash-decimal i g) ∙ ap after_dash e ∙ after_dash-decimal j h,
)
