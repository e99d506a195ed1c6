-- ===== src/Acl/Specs.antt =====
-- Access control lists as they are written, in the form that the comments of acl/acl_update.c
-- describe, and the words of that form.
use computer_science_notes.Base.{
  ℕ, ◌≤◌, ◌≡◌, refl, ap, ◌∙◌, Bool, true, false, not, ◌&&◌, ◌||◌, Option, none, some, List, [], ◌∷◌,
  ◌++◌, contains, suffix, contains-append, arith,
}
use mathlib.Core.Option
use computer_science_notes.Acl.Parse.{
  Tag, acl_user_obj, acl_user, acl_group_obj, acl_group, acl_mask, acl_other, Permissions,
  no_permissions, colon_char, comma_char, has_qual, tag_of, add_permission, add_permissions,
  permissions_of,
}

-- Whom an entry is about.
pub data Subject : Type 0 where
  owner : Subject
  user_named : List ℕ → Subject
  owning_group : Subject
  group_named : List ℕ → Subject
  mask : Subject
  others : Subject

-- A letter of a permissions string, and such a string: one letter or more, in any order.
pub data Letter : Type 0 where
  letter_read letter_write letter_execute dash : Letter

pub record Word : Type 0 where
  pub first : Letter
  pub more : List Letter

-- An entry as it is written: with the long or the short word, and with permissions or without.
pub record Spec : Type 0 where
  pub long : Bool
  pub subject : Subject
  pub perms : Option Word

abbrev pub tag_word : Bool → Subject → List ℕ
tag_word true owner = 117 ∷ 115 ∷ 101 ∷ 114 ∷ []
tag_word false owner = 117 ∷ []
tag_word true (user_named _) = 117 ∷ 115 ∷ 101 ∷ 114 ∷ []
tag_word false (user_named _) = 117 ∷ []
tag_word true owning_group = 103 ∷ 114 ∷ 111 ∷ 117 ∷ 112 ∷ []
tag_word false owning_group = 103 ∷ []
tag_word true (group_named _) = 103 ∷ 114 ∷ 111 ∷ 117 ∷ 112 ∷ []
tag_word false (group_named _) = 103 ∷ []
tag_word true mask = 109 ∷ 97 ∷ 115 ∷ 107 ∷ []
tag_word false mask = 109 ∷ []
tag_word true others = 111 ∷ 116 ∷ 104 ∷ 101 ∷ 114 ∷ []
tag_word false others = 111 ∷ []

abbrev pub name_of : Subject → List ℕ
name_of (user_named name) = name
name_of (group_named name) = name
name_of _ = []

abbrev pub letter_char : Letter → ℕ
letter_char letter_read = 114
letter_char letter_write = 119
letter_char letter_execute = 120
letter_char dash = 45

abbrev pub letters_text : List Letter → List ℕ
letters_text [] = []
letters_text (l ∷ ls) = letter_char l ∷ letters_text ls

abbrev pub word_text : Word → List ℕ
word_text w = letters_text (w.first ∷ w.more)

-- The permissions whose letters stand among some letters.
abbrev pub letters_granted : List Letter → Permissions
letters_granted [] = no_permissions
letters_granted (letter_read ∷ ls) = record (letters_granted ls) { read = true }
letters_granted (letter_write ∷ ls) = record (letters_granted ls) { write = true }
letters_granted (letter_execute ∷ ls) = record (letters_granted ls) { execute = true }
letters_granted (dash ∷ ls) = letters_granted ls

abbrev pub granted : Word → Permissions
granted w = letters_granted (w.first ∷ w.more)

-- `tag:[qualifier][:perms]`, and such entries with commas between them.
abbrev pub spec_text : Spec → List ℕ
spec_text e =
    tag_word e.long e.subject
    ++ suffix colon_char
        (some (name_of e.subject ++ suffix colon_char (Option.map word_text e.perms)))

abbrev pub acl_text : Spec → List Spec → List ℕ
acl_text e [] = spec_text e
acl_text e (f ∷ es) = spec_text e ++ suffix comma_char (some (acl_text f es))

-- A name is not empty, and has no colon and no comma.
abbrev is_name : List ℕ → Bool
is_name [] = false
is_name (c ∷ name) = not (contains colon_char (c ∷ name)) && not (contains comma_char (c ∷ name))

abbrev pub is_written : Subject → Bool
is_written (user_named name) = is_name name
is_written (group_named name) = is_name name
is_written _ = true

abbrev pub are_written : List Spec → Bool
are_written [] = true
are_written (e ∷ es) = is_written e.subject && are_written es

abbrev pub fits : Bool → Option Word → Bool
fits perms_reqd none = not perms_reqd
fits perms_reqd (some _) = perms_reqd

-- Permissions that either side gives.
abbrev either : Permissions → Permissions → Permissions
either p q = record {
  read = p.read || q.read;
  write = p.write || q.write;
  execute = p.execute || q.execute;
}

add_permissions-letters_text :
    (ls : List Letter) (p : Permissions)
    → add_permissions (letters_text ls) p ≡ some (either p (letters_granted ls))
unfolding add_permissions add_permission
add_permissions-letters_text [] p = ground arith
add_permissions-letters_text (letter_read ∷ ls) p =
    add_permissions-letters_text ls (record p { read = true }) ∙ ground arith
add_permissions-letters_text (letter_write ∷ ls) p =
    add_permissions-letters_text ls (record p { write = true }) ∙ ground arith
add_permissions-letters_text (letter_execute ∷ ls) p =
    add_permissions-letters_text ls (record p { execute = true }) ∙ ground arith
add_permissions-letters_text (dash ∷ ls) p = add_permissions-letters_text ls p

pub permissions_of-word_text :
    (word : Option Word)
    → permissions_of (Option.map word_text word) ≡ some (Option.map granted word)
unfolding permissions_of
permissions_of-word_text none = refl
permissions_of-word_text (some w) =
    ap (Option.map some)
      (add_permissions-letters_text (w.first ∷ w.more) no_permissions ∙ ap some neutral)
  where
    neutral : either no_permissions (granted w) ≡ granted w
    neutral = refl

abbrev pub word_tag : Subject → Tag
word_tag owner = acl_user_obj
word_tag (user_named _) = acl_user
word_tag owning_group = acl_group_obj
word_tag (group_named _) = acl_group
word_tag mask = acl_mask
word_tag others = acl_other

has_qual-name :
    (name : List ℕ) (tail : Option (List ℕ))
    → is_name name ≡ true
    → has_qual (name ++ suffix colon_char tail) ≡ true
unfolding has_qual
has_qual-name [] tail h = ground arith
has_qual-name (c ∷ name) tail h = ground arith

has_qual-none : (tail : Option (List ℕ)) → has_qual (suffix colon_char tail) ≡ false
unfolding has_qual
has_qual-none none = refl
has_qual-none (some l) = refl

pub tag_of-tag_word :
    (long : Bool) (s : Subject) (tail : Option (List ℕ))
    → is_written s ≡ true
    → tag_of (tag_word long s) (has_qual (name_of s ++ suffix colon_char tail)) ≡ some (word_tag s)
unfolding tag_of
tag_of-tag_word true owner tail h = rw (has_qual-none tail) refl
tag_of-tag_word false owner tail h = rw (has_qual-none tail) refl
tag_of-tag_word true (user_named name) tail h = rw (has_qual-name name tail h) refl
tag_of-tag_word false (user_named name) tail h = rw (has_qual-name name tail h) refl
tag_of-tag_word true owning_group tail h = rw (has_qual-none tail) refl
tag_of-tag_word false owning_group tail h = rw (has_qual-none tail) refl
tag_of-tag_word true (group_named name) tail h = rw (has_qual-name name tail h) refl
tag_of-tag_word false (group_named name) tail h = rw (has_qual-name name tail h) refl
tag_of-tag_word true mask tail h = refl
tag_of-tag_word false mask tail h = refl
tag_of-tag_word true others tail h = refl
tag_of-tag_word false others tail h = refl

pub contains-tag_word :
    (sep : ℕ) (long : Bool) (s : Subject) → sep ≤ 58 → contains sep (tag_word long s) ≡ false
contains-tag_word sep long s h = ground arith

pub contains-name_of :
    (s : Subject)
    → is_written s ≡ true
    → (contains colon_char (name_of s) ≡ false) × (contains comma_char (name_of s) ≡ false)
contains-name_of (user_named []) h = ground arith
contains-name_of (user_named (c ∷ name)) h = ground arith
contains-name_of (group_named []) h = ground arith
contains-name_of (group_named (c ∷ name)) h = ground arith
contains-name_of owner h = (refl, refl)
contains-name_of owning_group h = (refl, refl)
contains-name_of mask h = (refl, refl)
contains-name_of others h = (refl, refl)

contains-letters_text : (ls : List Letter) → contains comma_char (letters_text ls) ≡ false
contains-letters_text [] = refl
contains-letters_text (letter_read ∷ ls) = contains-letters_text ls
contains-letters_text (letter_write ∷ ls) = contains-letters_text ls
contains-letters_text (letter_execute ∷ ls) = contains-letters_text ls
contains-letters_text (dash ∷ ls) = contains-letters_text ls

contains-word_text :
    (perms : Option Word)
    → contains comma_char (suffix colon_char (Option.map word_text perms)) ≡ false
contains-word_text none = refl
contains-word_text (some w) = contains-letters_text (w.first ∷ w.more)

pub contains-spec_text :
    (e : Spec) → is_written e.subject ≡ true → contains comma_char (spec_text e) ≡ false
contains-spec_text e h =
    let tail = suffix colon_char (Option.map word_text e.perms) in
    contains-append comma_char (tag_word e.long e.subject)
      (colon_char ∷ (name_of e.subject ++ tail))
    ∙ ground (
      arith,
      contains-tag_word comma_char e.long e.subject,
      contains-append comma_char (name_of e.subject) tail,
      contains-name_of e.subject h,
      contains-word_text e.perms,
    )
