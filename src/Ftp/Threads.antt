-- ===== src/Ftp/Threads.antt =====
-- The thread of a session of `FTPServer`, turn by turn.
use network_protocols.Common.{
  ◌≡◌, refl, sym, ◌∙◌, ap, Bool, true, false, inl, inr, List, [], ◌∷◌, ◌++◌, append_assoc,
  append-nil, Bool-cases, if◌then◌else◌,
}
use network_protocols.Ftp.Handlers.{Session, Event}
use network_protocols.Ftp.Execute.{
  Surroundings, Outcome, done, thrown, waits, Read, got, end_of_file, failed, closed, reading, busy,
  Run, behind, ends_as, after_outcome, after_read, work, execute_command, first_line,
}
use network_protocols.Ftp.Server.{on_turn}

-- The turns of a thread, one after the other.
unfoldable pub run_turns : List (Surroundings × Read) → Run → Run
run_turns [] r = r
run_turns (x ∷ xs) r = run_turns xs (on_turn x r)

behind-behind : (es fs : List Event) (r : Run) → behind es (behind fs r) ≡ behind (es ++ fs) r
behind-behind es fs r = ap (λ ls. record r { events = ls }) (sym (append_assoc es fs r.events))

-- A thread that has ended stays as it is.
run_turns_ended :
    (xs : List (Surroundings × Read)) (r : Run)
    → ((x : Surroundings × Read) → on_turn x r ≡ r)
    → run_turns xs r ≡ r
unfolding run_turns
run_turns_ended [] r h = refl
run_turns_ended (x ∷ xs) r h = ap (run_turns xs) (h x) ∙ run_turns_ended xs r h

-- What is left to do of the turns `xs` is the loop on them.
abbrev Follows : List (Surroundings × Read) → Type 0
Follows xs =
    (t : Session) (es : List Event) → run_turns xs (behind es (work [] t)) ≡ behind es (work xs t)

module _ (xs : List (Surroundings × Read)) (es : List Event) (s : Session) where
  run_turns_closed : run_turns xs (behind es (ends_as closed s)) ≡ behind es (ends_as closed s)
  run_turns_closed = run_turns_ended xs (behind es (ends_as closed s)) (λ x. refl)

  run_turns_busy : run_turns xs (behind es (ends_as busy s)) ≡ behind es (ends_as busy s)
  run_turns_busy = run_turns_ended xs (behind es (ends_as busy s)) (λ x. refl)

  run_turns-after_outcome :
      (o : Outcome)
      → Follows xs
      → run_turns xs (behind es (after_outcome (work []) s o))
        ≡ behind es (after_outcome (work xs) s o)
  run_turns-after_outcome (done t fs) f =
      ap (run_turns xs) (behind-behind es fs (work [] t))
      ∙ f t (es ++ fs)
      ∙ sym (behind-behind es fs (work xs t))
  run_turns-after_outcome thrown f = run_turns_closed
  run_turns-after_outcome waits f = run_turns_busy

  run_turns-after_read :
      (env : Surroundings) (r : Read)
      → Follows xs
      → run_turns xs (behind es (after_read (work []) env s r))
        ≡ behind es (after_read (work xs) env s r)
  run_turns-after_read env (got bytes) f =
      run_turns-after_outcome (execute_command env (first_line bytes) s) f
  run_turns-after_read env end_of_file f = run_turns_closed
  run_turns-after_read env failed f = f s es

pub by_quit : (b : Bool) (x y : Run) → b ≡ true → (if b then x else y) ≡ x
by_quit true x y h = refl
by_quit false x y h = cc

pub by_going : (b : Bool) (x y : Run) → b ≡ false → (if b then x else y) ≡ y
by_going true x y h = cc
by_going false x y h = refl

work_quit :
    (xs : List (Surroundings × Read)) (s : Session)
    → s.quit_cmd_loop ≡ true
    → work xs s ≡ ends_as closed s
unfolding work
work_quit [] s q = by_quit s.quit_cmd_loop (ends_as closed s) (ends_as reading s) q
work_quit ((env, r) ∷ xs) s q =
    by_quit s.quit_cmd_loop (ends_as closed s) (after_read (work xs) env s r) q

work_going :
    (env : Surroundings) (r : Read) (xs : List (Surroundings × Read)) (s : Session)
    → s.quit_cmd_loop ≡ false
    → work ((env, r) ∷ xs) s ≡ after_read (work xs) env s r
unfolding work
work_going env r xs s q =
    by_going s.quit_cmd_loop (ends_as closed s) (after_read (work xs) env s r) q

work_waits : (s : Session) → s.quit_cmd_loop ≡ false → work [] s ≡ ends_as reading s
unfolding work
work_waits s q = by_going s.quit_cmd_loop (ends_as closed s) (ends_as reading s) q

-- Turn by turn a thread does what the whole loop does.
pub run_turns-work :
    (xs : List (Surroundings × Read)) (s : Session) (es : List Event)
    → run_turns xs (behind es (work [] s)) ≡ behind es (work xs s)
unfolding run_turns
run_turns-work [] s es = refl
run_turns-work ((env, r) ∷ xs) s es = elim (Bool-cases s.quit_cmd_loop) [
  | inl q ↦
      ap (λ y. run_turns ((env, r) ∷ xs) (behind es y)) (work_quit [] s q)
      ∙ run_turns_closed ((env, r) ∷ xs) es s
      ∙ ap (behind es) (sym (work_quit ((env, r) ∷ xs) s q))
  | inr q ↦
      ap (λ y. run_turns ((env, r) ∷ xs) (behind es y)) (work_waits s q)
      ∙ ap (λ ls. run_turns xs (behind ls (work ((env, r) ∷ []) s))) (append-nil es)
      ∙ ap (λ y. run_turns xs (behind es y)) (work_going env r [] s q)
      ∙ run_turns-after_read xs es s env r (λ t fs. run_turns-work xs t fs)
      ∙ ap (behind es) (sym (work_going env r xs s q))
]
