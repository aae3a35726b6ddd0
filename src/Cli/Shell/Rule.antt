-- ===== src/Cli/Shell/Rule.antt =====
-- One rule for each statement about the commands of the shell of fat32/src/main.rs: it holds of
-- every line where it holds of each command. A line with no word, whose first word the code
-- unwraps, does not get so far.
use the_heap.Prelude.{◌≡◌, refl, Bool, true, false, List, [], ◌∷◌, is_empty, if◌then◌else◌}
use the_heap.Prelude.{map, Bool-cases, inl, inr, some, none}
use the_heap.Fat32.Error.{Result-cases}
use the_heap.Fat32.Text.{Text}
use the_heap.Fat32.DirEntry.{DirEntry, is_dir}
use the_heap.Fat32.Volume.{Volume, new}
use the_heap.Fat32.Read.{open_path, list_dir_path, read_file_by_path}
use the_heap.Fat32.Read.Safe.{open_path-NoPanic, list_dir_path-NoPanic, read_file_by_path-NoPanic}
use the_heap.Fat32.Volume.Safe.{new-NoPanic}
use the_heap.Cli.Path.{resolve_path}
use the_heap.Fat32.Error.{ok}
use the_heap.Cli.Shell.{mounted, enter, row_of, run_ls, run_cat, printed}
use the_heap.Cli.Words.{trim, split_whitespace}
use the_heap.Cli.Host.{HostFs, Output, ls_error, listing_of, cat_error, file_not_found, contents}
use the_heap.Cli.Shell.{
  Session, Reply, go_on, leave, crash, Verb, verb_of, exit, help, pwd, ls, cat, cd, put_file, other,
  run_verb, run_command, run_line, trim, split_whitespace, shell_ls, shell_cat, shell_cd, shell_put,
}
use the_heap.Cli.Words.Visible.{is_empty-split_whitespace}

if-rule :
    {R : Type 0} (P : R → Type 0) (b : Bool) (x y : R)
    → (b ≡ true → P x)
    → (b ≡ false → P y)
    → P (if b then x else y)
if-rule P true x y p q = p refl
if-rule P false x y p q = q refl

-- Listing and reading print something.
pub run_ls-prints :
    {E : Type 0} (v : Volume) (path : Text) → (out : List (Output E)) × (run_ls v path ≡ some out)
unfolding run_ls
run_ls-prints v path = elim (Result-cases (list_dir_path v path) (list_dir_path-NoPanic v path)) [
  | inl (e, q) ↦ (ls_error path e ∷ [], rw (q, run_ls) refl)
  | inr (es, q) ↦ (listing_of path ∷ map row_of es, rw (q, run_ls) refl)
]

pub run_cat-prints :
    {E : Type 0} (v : Volume) (path : Text) → (out : List (Output E)) × (run_cat v path ≡ some out)
unfolding run_cat
run_cat-prints v path =
    elim (Result-cases (read_file_by_path v path) (read_file_by_path-NoPanic v path)) [
      | inl (e, q) ↦ (cat_error path e ∷ [], rw (q, run_cat) refl)
      | inr (none, q) ↦ (file_not_found path ∷ [], rw (q, run_cat) refl)
      | inr (some bytes, q) ↦ (contents bytes ∷ [], rw (q, run_cat) refl)
    ]

module _ (h : HostFs) (s : Session h.World) (P : Reply h.World h.IoError → Type 0) where
  module _ (stays : (out : List (Output h.IoError)) → P (go_on s out)) where
    pub mounted-rule :
        (body : Volume → Reply h.World h.IoError)
        → ((v : Volume) → new s.image ≡ ok v → P (body v))
        → P (mounted h body s)
    mounted-rule body good = elim (Result-cases (new s.image) (new-NoPanic s.image)) [
      | inl (e, q) ↦ rw (q, mounted) (stays _)
      | inr (v, q) ↦ rw (q, mounted) (good v q)
    ]

    ls-rule : (v : Volume) (path : Text) → P (printed h s (run_ls v path))
    ls-rule v path = let (out, e) = run_ls-prints {E = h.IoError} v path in rw e (stays out)

    cat-rule : (v : Volume) (path : Text) → P (printed h s (run_cat v path))
    cat-rule v path = let (out, e) = run_cat-prints {E = h.IoError} v path in rw e (stays out)

    shell_ls-rule : (parts : List Text) → P (shell_ls h parts s)
    unfolding shell_ls
    shell_ls-rule [] = mounted-rule _ (λ v q. ls-rule v s.current_dir)
    shell_ls-rule (p ∷ ps) = mounted-rule _ (λ v q. ls-rule v (resolve_path s.current_dir p))

    shell_cat-rule : (parts : List Text) → P (shell_cat h parts s)
    unfolding shell_cat
    shell_cat-rule [] = mounted-rule _ (λ v q. stays _)
    shell_cat-rule (p ∷ ps) = mounted-rule _ (λ v q. cat-rule v (resolve_path s.current_dir p))

    pub enter-rule :
        (target : Text) (v : Volume)
        → ((e : DirEntry)
            → open_path v target ≡ ok (some e)
            → is_dir e ≡ true
            → P (go_on (record s { current_dir = target }) []))
        → P (enter h target v s)
    unfolding enter
    enter-rule target v moves =
        elim (Result-cases (open_path v target) (open_path-NoPanic v target)) [
          | inl (e, q) ↦ rw (q, enter) (stays _)
          | inr (none, q) ↦ rw (q, enter) (stays _)
          | inr (some entry, q) ↦ elim (Bool-cases (is_dir entry)) [
            | inl dir ↦ rw (q, enter, dir) (moves entry q dir)
            | inr file ↦ rw (q, enter, file) (stays _)
          ]
        ]

  module _ (stays : (out : List (Output h.IoError)) → P (go_on s out)) (left : P leave)
      (on_cd : (parts : List Text) → P (shell_cd h parts s)) where
    run_verb-rule :
        (img cmd : Text) (parts : List Text) (v : Verb)
        → (v ≡ put_file → P (shell_put h img parts s))
        → P (run_verb h img cmd parts s v)
    unfolding run_verb
    run_verb-rule img cmd parts exit put = left
    run_verb-rule img cmd parts help put = stays _
    run_verb-rule img cmd parts pwd put = stays _
    run_verb-rule img cmd parts ls put = shell_ls-rule stays parts
    run_verb-rule img cmd parts cat put = shell_cat-rule stays parts
    run_verb-rule img cmd parts cd put = on_cd parts
    run_verb-rule img cmd parts put_file put = put refl
    run_verb-rule img cmd parts other put = stays _

    words-rule :
        (img : Text) (ws : List Text)
        → is_empty ws ≡ false
        → ((cmd : Text) (parts : List Text)
            → ws ≡ cmd ∷ parts
            → verb_of cmd ≡ put_file
            → P (shell_put h img parts s))
        → P (elim ws [ [] ↦ crash s | cmd ∷ parts ↦ run_command h img cmd parts s ])
    unfolding run_command
    words-rule img [] e put = cc
    words-rule img (cmd ∷ parts) e put =
        run_verb-rule img cmd parts (verb_of cmd) (put cmd parts refl)

    pub run_line-rule :
        (img line : Text)
        → ((cmd : Text) (parts : List Text)
            → split_whitespace (trim line) ≡ cmd ∷ parts
            → verb_of cmd ≡ put_file
            → P (shell_put h img parts s))
        → P (run_line h img line s)
    unfolding run_line
    run_line-rule img line put =
        if-rule P (is_empty (trim line)) (go_on s [])
          (elim (split_whitespace (trim line)) [
            | [] ↦ crash s
            | cmd ∷ parts ↦ run_command h img cmd parts s
          ])
          (λ _. stays [])
          λ full.
            words-rule img (split_whitespace (trim line)) (is_empty-split_whitespace line full) put
