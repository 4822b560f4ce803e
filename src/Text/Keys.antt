-- ===== src/Text/Keys.antt =====
-- Texts as keys of maps.
use shoka.Prelude.Assoc.{Key}
use shoka.Text.{Text, text_eq}
use shoka.Text.Laws.{text_eq_iff}

instance abbrev pub text_key : Key Text
text_key = record { beq = text_eq; beq_iff = text_eq_iff }
