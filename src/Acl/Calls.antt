-- ===== src/Acl/Calls.antt =====
-- What acl/acl_update.c calls of libacl, and calls that may end the process.
use computer_science_notes.Base.{ℕ, Bool, true, false, Option, none, some, List}
use computer_science_notes.Acl.Parse.{Tag}

-- How a part of the program ends, in the world that it leaves: it returns, it ends the process by
-- errExit(), fatal() or exit(), the rounds of a loop are used up, or it reads what was never stored.
pub data Ended (W : Type 0) (A : Type 0) : Type 0 where
  done : A → W → Ended W A
  exited : Bool → W → Ended W A
  running : W → Ended W A
  undefined : Ended W A

abbrev pub ⊤ : Type 0
⊤ = Unit

module _ {W A : Type 0} where
  abbrev pub pure : A → W → Ended W A
  pure a w = done a w

  -- exit(EXIT_SUCCESS), and errExit() or fatal().
  abbrev pub exit_success : W → Ended W A
  exit_success w = exited true w

  abbrev pub err_exit : W → Ended W A
  err_exit w = exited false w

  abbrev or_exit : Option A × W → Ended W A
  or_exit (none, w) = exited false w
  or_exit (some a, w) = done a w

  -- A call, with errExit() where it fails.
  abbrev pub call : (W → Option A × W) → W → Ended W A
  call f w = or_exit (f w)

infixl 5 ◌>>=◌ ◌>>◌
abbrev pub ◌>>=◌ : {W A B : Type 0} → (W → Ended W A) → (A → W → Ended W B) → W → Ended W B
◌>>=◌ m f w = elim (m w) [
  | done a w' ↦ f a w'
  | exited b w' ↦ exited b w'
  | running w' ↦ running w'
  | undefined ↦ undefined
]

abbrev pub ◌>>◌ : {W A B : Type 0} → (W → Ended W A) → (W → Ended W B) → W → Ended W B
m >> n = m >>= λ _. n

-- acl_type_t and acl_perm_t
pub data AclType : Type 0 where
  type_access : AclType
  type_default : AclType

pub data Perm : Type 0 where
  acl_read : Perm
  acl_write : Perm
  acl_execute : Perm

-- libacl: each call may change the world, in which the files and the working storage are; `none` is the
-- -1 or NULL of a failure.
pub record Libacl : Type 1 where
  pub World : Type 0
  pub Acl : Type 0
  pub Entry : Type 0
  pub Qualifier : Type 0
  pub Permset : Type 0
  pub acl_get_file : List ℕ → AclType → World → Option Acl × World
  pub acl_set_file : List ℕ → AclType → Acl → World → Option ⊤ × World
  pub acl_delete_def_file : List ℕ → World → Option ⊤ × World
  -- acl_get_entry() with ACL_FIRST_ENTRY where the test holds, and with ACL_NEXT_ENTRY else.
  pub acl_get_entry : Acl → Bool → World → Option (Option Entry) × World
  pub acl_get_tag_type : Entry → World → Option Tag × World
  pub acl_get_qualifier : Entry → World → Option Qualifier × World
  pub id_at : Qualifier → World → ℕ
  pub acl_free_qualifier : Qualifier → World → Option ⊤ × World
  pub acl_free : Acl → World → Option ⊤ × World
  pub acl_get_permset : Entry → World → Option Permset × World
  pub acl_clear_perms : Permset → World → Option ⊤ × World
  pub acl_add_perm : Permset → Perm → World → Option ⊤ × World
  pub acl_set_permset : Entry → Permset → World → Option ⊤ × World
  pub acl_delete_entry : Acl → Entry → World → Option ⊤ × World
  -- The calls with the address of the acl_t give it anew.
  pub acl_create_entry : Acl → World → Option (Acl × Entry) × World
  pub acl_calc_mask : Acl → World → Option Acl × World
  pub acl_set_tag_type : Entry → Tag → World → Option ⊤ × World
  pub acl_set_qualifier : Entry → ℕ → World → Option ⊤ × World
  pub acl_valid : Acl → World → Option ⊤ × World
