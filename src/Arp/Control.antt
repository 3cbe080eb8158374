-- ===== src/Arp/Control.antt =====
-- The commands that arp.c takes.
use project_and_training_3_n.Base.{
  ℕ, zero, suc, ◌≡◌, refl, [], ◌∷◌, ◌++◌, replicate, err, out_of_bounds, arith,
}
use project_and_training_3_n.Libc.{tokens_from, strtok}
use project_and_training_3_n.Libc.Tokens.{Lacks}
use project_and_training_3_n.Router.Words.{command_text-last}
use project_and_training_3_n.Arp.{ArpTool}
use project_and_training_3_n.Arp.Frame.{handle_control, process_cmd}

strtok-blank : (n : ℕ) → strtok b' ' (replicate n b' ') ≡ []
unfolding strtok tokens_from
strtok-blank zero = refl
strtok-blank (suc n) = strtok-blank n

blank-Lacks : (n : ℕ) → Lacks 0 (replicate n b' ')
blank-Lacks zero = tt
blank-Lacks (suc n) = (omega arith, blank-Lacks n)

-- A command line of spaces alone, or with nothing in it, makes `strcasecmp` read a null pointer.
pub handle_control-blank :
    (t : ArpTool) (n : ℕ) → handle_control (replicate n b' ' ++ b'\n' ∷ []) t ≡ err out_of_bounds
unfolding handle_control process_cmd
handle_control-blank t n =
    rw (command_text-last (replicate n b' ') b'\n' (blank-Lacks n), handle_control, strtok-blank n)
      refl
