-- ===== src/Cli/Laws.antt =====
-- The command lines that `parse` accepts.
use github_oras_packages.Base.{
  ◌≡◌, ◌⊎◌, ◌↔◌, inl, inr, refl, sym, ap, subst, Bool, true, false, List, [], ◌∷◌, Bytes, bytes, ok,
  arith, text_eq, text_eq_iff, ◌>>=◌, >>=-eq-ok, fail_if-eq-ok, ok-inj, Bool-cases,
}
use github_oras_packages.Cli.{
  create, update, delete, Command, serve, help, autoindex, dry_run_options, delete_options,
  parse_update, parse_delete, parse_operation, parse_autoindex, parse_command, parse, is_help,
  bool_eq,
}

abbrev pub dry_run_flag : Bool → List Bytes
dry_run_flag true = bytes "--dry-run" ∷ []
dry_run_flag false = []

abbrev pub IsHelp : Bytes → Type 0
IsHelp s = (s ≡ bytes "help") ⊎ ((s ≡ bytes "--help") ⊎ (s ≡ bytes "-h"))

-- The arguments behind the program's name that stand for a command. A deletion has exactly one of
-- its two options.
abbrev pub IsInvocation : List Bytes → Command → Type 0
IsInvocation arguments serve = (arguments ≡ []) ⊎ (arguments ≡ bytes "serve" ∷ [])
IsInvocation arguments help =
    (word : Bytes) × IsHelp word
    × ((arguments ≡ word ∷ []) ⊎ (arguments ≡ bytes "autoindex" ∷ word ∷ []))
IsInvocation arguments (autoindex (create source path dry_run)) =
    arguments ≡ bytes "autoindex" ∷ bytes "create" ∷ source ∷ path ∷ dry_run_flag dry_run
IsInvocation arguments (autoindex (update source path dry_run)) =
    arguments ≡ bytes "autoindex" ∷ bytes "update" ∷ source ∷ path ∷ dry_run_flag dry_run
IsInvocation arguments (autoindex (delete path true true)) = ⊥
IsInvocation arguments (autoindex (delete path true false)) =
    arguments ≡ bytes "autoindex" ∷ bytes "delete" ∷ path ∷ bytes "--yes" ∷ []
IsInvocation arguments (autoindex (delete path false true)) =
    arguments ≡ bytes "autoindex" ∷ bytes "delete" ∷ path ∷ bytes "--dry-run" ∷ []
IsInvocation arguments (autoindex (delete path false false)) = ⊥

module _ (program : Bytes) where
  invocation_complete :
      (arguments : List Bytes) (command : Command)
      → IsInvocation arguments command
      → parse (program ∷ arguments) ≡ ok command
  unfolding parse parse_command parse_autoindex parse_operation parse_update parse_delete
      dry_run_options delete_options text_eq ◌>>=◌
  invocation_complete arguments serve (inl e) = rw e refl
  invocation_complete arguments serve (inr e) = rw e refl
  invocation_complete arguments help (word, inl h, inl e) = rw (e, h) refl
  invocation_complete arguments help (word, inl h, inr e) = rw (e, h) refl
  invocation_complete arguments help (word, inr (inl h), inl e) = rw (e, h) refl
  invocation_complete arguments help (word, inr (inl h), inr e) = rw (e, h) refl
  invocation_complete arguments help (word, inr (inr h), inl e) = rw (e, h) refl
  invocation_complete arguments help (word, inr (inr h), inr e) = rw (e, h) refl
  invocation_complete arguments (autoindex (create source path true)) e = rw e refl
  invocation_complete arguments (autoindex (create source path false)) e = rw e refl
  invocation_complete arguments (autoindex (update source path true)) e = rw e refl
  invocation_complete arguments (autoindex (update source path false)) e = rw e refl
  invocation_complete arguments (autoindex (delete path true true)) e = absurd e
  invocation_complete arguments (autoindex (delete path true false)) e = rw e refl
  invocation_complete arguments (autoindex (delete path false true)) e = rw e refl
  invocation_complete arguments (autoindex (delete path false false)) e = absurd e

dry_run_options_sound :
    (arguments : List Bytes) (dry_run : Bool)
    → dry_run_options false arguments ≡ ok dry_run
    → arguments ≡ dry_run_flag dry_run
unfolding dry_run_options
dry_run_options_sound [] true h = ground (arith, h)
dry_run_options_sound [] false h = refl
dry_run_options_sound (a ∷ []) true h =
    ap (λ t. t ∷ []) (ground (arith, h, text_eq_iff a (bytes "--dry-run")))
dry_run_options_sound (a ∷ []) false h = ground (arith, h)
dry_run_options_sound (a ∷ b ∷ arguments) d h = ground (arith, h)

delete_options-all :
    (arguments : List Bytes) {p : Bool × Bool}
    → delete_options true true arguments ≡ ok p
    → p ≡ (true, true)
unfolding delete_options
delete_options-all [] h = sym (ok-inj h)
delete_options-all (a ∷ arguments) h = ground (arith, h)

-- The options for which `delete_options` returns two Booleans.
abbrev IsDeletion : List Bytes → Bool → Bool → Type 0
IsDeletion arguments true true = Unit
IsDeletion arguments true false = arguments ≡ bytes "--yes" ∷ []
IsDeletion arguments false true = arguments ≡ bytes "--dry-run" ∷ []
IsDeletion arguments false false = arguments ≡ []

one_option :
    (a : Bytes) (c d : Bool)
    → delete_options false false (a ∷ []) ≡ ok (c, d)
    → IsDeletion (a ∷ []) c d
unfolding delete_options
one_option a true true h = tt
one_option a true false h = ap (λ t. t ∷ []) (ground (arith, h, text_eq_iff a (bytes "--yes")))
one_option a false true h = ap (λ t. t ∷ []) (ground (arith, h, text_eq_iff a (bytes "--dry-run")))
one_option a false false h = ground (arith, h)

two_options :
    (a b : Bytes) (arguments : List Bytes) {p : Bool × Bool}
    → delete_options false false (a ∷ b ∷ arguments) ≡ ok p
    → p ≡ (true, true)
unfolding delete_options
two_options a b arguments {p = p} h = ground (arith, h, delete_options-all arguments {p = p})

delete_options_sound :
    (arguments : List Bytes) (c d : Bool)
    → delete_options false false arguments ≡ ok (c, d)
    → IsDeletion arguments c d
delete_options_sound [] true true h = tt
delete_options_sound [] true false h = unfold delete_options in ground (arith, h)
delete_options_sound [] false true h = unfold delete_options in ground (arith, h)
delete_options_sound [] false false h = refl
delete_options_sound (a ∷ []) c d h = one_option a c d h
delete_options_sound (a ∷ b ∷ arguments) true true h = tt
delete_options_sound (a ∷ b ∷ arguments) true false h =
    let k = two_options a b arguments h in ground (arith, k)
delete_options_sound (a ∷ b ∷ arguments) false d h =
    let k = two_options a b arguments h in ground (arith, k)

-- A command line behind `autoindex` and an operation.
abbrev under : Bytes → List Bytes → List Bytes
under operation arguments = bytes "autoindex" ∷ operation ∷ arguments

create_sound :
    (source : Bytes) (arguments : List Bytes) {command : Command}
    → parse_update (bytes "create") source arguments ≡ ok command
    → IsInvocation (under (bytes "create") (source ∷ arguments)) command
unfolding parse_update text_eq
create_sound source [] h = cc
create_sound source (path ∷ arguments) h =
    let (dry_run, a, h₁) = >>=-eq-ok _ _ h in
    subst (IsInvocation (under (bytes "create") (source ∷ path ∷ arguments))) (ok-inj h₁) (
      ap (λ t. under (bytes "create") (source ∷ path ∷ t))
        (dry_run_options_sound arguments dry_run a))

update_sound :
    (source : Bytes) (arguments : List Bytes) {command : Command}
    → parse_update (bytes "update") source arguments ≡ ok command
    → IsInvocation (under (bytes "update") (source ∷ arguments)) command
unfolding parse_update text_eq
update_sound source [] h = cc
update_sound source (path ∷ arguments) h =
    let (dry_run, a, h₁) = >>=-eq-ok _ _ h in
    subst (IsInvocation (under (bytes "update") (source ∷ path ∷ arguments))) (ok-inj h₁) (
      ap (λ t. under (bytes "update") (source ∷ path ∷ t))
        (dry_run_options_sound arguments dry_run a))

deletion :
    (path : Bytes) (arguments : List Bytes) (c d : Bool)
    → IsDeletion arguments c d
    → bool_eq c d ≡ false
    → IsInvocation (under (bytes "delete") (path ∷ arguments)) (autoindex (delete path c d))
deletion path arguments true true e h = cc
deletion path arguments true false e h = ap (λ t. under (bytes "delete") (path ∷ t)) e
deletion path arguments false true e h = ap (λ t. under (bytes "delete") (path ∷ t)) e
deletion path arguments false false e h = cc

delete_sound :
    (path : Bytes) (arguments : List Bytes) {command : Command}
    → parse_delete path arguments ≡ ok command
    → IsInvocation (under (bytes "delete") (path ∷ arguments)) command
unfolding parse_delete
delete_sound path arguments h =
    let ((c, d), a, h₁) = >>=-eq-ok _ _ h in
    let (b, h₂) = fail_if-eq-ok _ _ _ h₁ in
    subst (IsInvocation (under (bytes "delete") (path ∷ arguments))) (ok-inj h₂)
      (deletion path arguments c d (delete_options_sound arguments c d a) b)

operation_sound :
    (operation argument : Bytes) (arguments : List Bytes) {command : Command}
    → parse_operation operation argument arguments ≡ ok command
    → IsInvocation (under operation (argument ∷ arguments)) command
unfolding parse_operation
operation_sound operation argument arguments {command} h =
    elim (Bool-cases (text_eq operation (bytes "create"))) [
      | inl e ↦
          let same = (text_eq_iff operation (bytes "create")).0 e in
          rw same (create_sound argument arguments (rw same at (rw e at h)))
      | inr n ↦ elim (Bool-cases (text_eq operation (bytes "update"))) [
        | inl e ↦
            let same = (text_eq_iff operation (bytes "update")).0 e in
            rw same (update_sound argument arguments (rw same at (rw e at (rw n at h))))
        | inr m ↦ elim (Bool-cases (text_eq operation (bytes "delete"))) [
          | inl e ↦
              let same = (text_eq_iff operation (bytes "delete")).0 e in
              rw same (delete_sound argument arguments (rw e at (rw m at (rw n at h))))
          | inr k ↦ absurd (let r = rw k at (rw m at (rw n at h)) in cc)
        ]
      ]
    ]

IsHelp-of : (s : Bytes) → is_help s ≡ true → IsHelp s
IsHelp-of s h = ground (
  arith,
  text_eq_iff s (bytes "help"),
  text_eq_iff s (bytes "--help"),
  text_eq_iff s (bytes "-h"),
)

autoindex_sound :
    (arguments : List Bytes) {command : Command}
    → parse_autoindex arguments ≡ ok command
    → IsInvocation (bytes "autoindex" ∷ arguments) command
unfolding parse_autoindex
autoindex_sound [] h = cc
autoindex_sound (operation ∷ []) h = elim (Bool-cases (is_help operation)) [
  | inl e ↦
      subst (IsInvocation (bytes "autoindex" ∷ operation ∷ [])) (ok-inj (rw e at h))
        (operation, IsHelp-of operation e, inr refl)
  | inr e ↦ absurd (let k = rw e at h in cc)
]
autoindex_sound (operation ∷ argument ∷ arguments) h = elim (Bool-cases (is_help operation)) [
  | inl e ↦ absurd (let k = rw e at h in cc)
  | inr e ↦ operation_sound operation argument arguments (rw e at h)
]

parse_command_sound :
    (word : Bytes) (arguments : List Bytes) {command : Command}
    → parse_command word arguments ≡ ok command
    → IsInvocation (word ∷ arguments) command
unfolding parse_command
parse_command_sound word [] h = elim (Bool-cases (text_eq word (bytes "serve"))) [
  | inl e ↦
      subst (IsInvocation (word ∷ [])) (ok-inj (rw e at h))
        (inr (ap (λ t. t ∷ []) ((text_eq_iff word (bytes "serve")).0 e)))
  | inr n ↦ elim (Bool-cases (is_help word)) [
    | inl e ↦
        subst (IsInvocation (word ∷ [])) (ok-inj (rw e at (rw n at h)))
          (word, IsHelp-of word e, inl refl)
    | inr m ↦ absurd (unfold parse_autoindex in let k = rw m at (rw n at h) in ground (arith, k))
  ]
]
parse_command_sound word (argument ∷ arguments) h =
    elim (Bool-cases (text_eq word (bytes "autoindex"))) [
      | inl e ↦
          let same = (text_eq_iff word (bytes "autoindex")).0 e in
          rw same (autoindex_sound (argument ∷ arguments) (ground (arith, h, e)))
      | inr n ↦ absurd (ground (arith, h, n))
    ]

parse_sound :
    (program : Bytes) (arguments : List Bytes) {command : Command}
    → parse (program ∷ arguments) ≡ ok command
    → IsInvocation arguments command
unfolding parse
parse_sound program [] h = subst (IsInvocation []) (ok-inj h) (inl refl)
parse_sound program (word ∷ arguments) h = parse_command_sound word arguments h

-- A command line is read as a command exactly if the arguments behind the program's name stand for
-- it: nothing or `serve`; a help word, alone or behind `autoindex`; `autoindex create` or `update`
-- with a source, a path and at most one `--dry-run`; `autoindex delete` with a path and exactly one
-- of `--yes` and `--dry-run`. So no deletion is ever both confirmed and a dry run, or neither.
pub parse_iff :
    (program : Bytes) (arguments : List Bytes) (command : Command)
    → (parse (program ∷ arguments) ≡ ok command) ↔ IsInvocation arguments command
parse_iff program arguments command =
    (parse_sound program arguments, invocation_complete program arguments command)
