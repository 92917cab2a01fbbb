-- ===== src/Converge/Requests/Commands.antt =====
-- internal/converge/converge.go, `parseCommand`: which annotations are commands.
use sqlc_gen_unison.Base.{◌≡◌, ◌≢◌, ◌↔◌, refl, Text, codes, text_eq, text_eq_iff, arith, ok, subst}
use sqlc_gen_unison.Ir.{
  Command, command_invalid, command_exec, command_one, command_many, command_exec_rows,
  command_exec_result, command_name,
}
use sqlc_gen_unison.Converge.Requests.{parse_command}

pub parse_command-command_name :
    (c : Command) → c ≢ command_invalid → parse_command (command_name c) ≡ ok c
unfolding parse_command command_name text_eq
parse_command-command_name command_invalid h = absurd (h refl)
parse_command-command_name command_exec h = refl
parse_command-command_name command_one h = refl
parse_command-command_name command_many h = refl
parse_command-command_name command_exec_rows h = refl
parse_command-command_name command_exec_result h = refl

pub parse_command-eq-ok :
    (t : Text) (c : Command) → parse_command t ≡ ok c → (c ≢ command_invalid) × (command_name c ≡ t)
unfolding parse_command command_name
parse_command-eq-ok t c h = (
  λ e. ground arith,
  ground (
    arith,
    text_eq_iff t (codes ":exec"),
    text_eq_iff t (codes ":one"),
    text_eq_iff t (codes ":many"),
    text_eq_iff t (codes ":execrows"),
    text_eq_iff t (codes ":execresult"),
  ),
)

-- An annotation is parsed to a command exactly when it is that command's own spelling; the invalid
-- command has none.
pub parse_command_iff :
    (t : Text) (c : Command)
    → (parse_command t ≡ ok c) ↔ ((c ≢ command_invalid) × (command_name c ≡ t))
parse_command_iff t c = (
  parse_command-eq-ok t c,
  λ (valid, e). subst (λ s. parse_command s ≡ ok c) e (parse_command-command_name c valid),
)
