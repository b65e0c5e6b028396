-- ===== src/Fs/Traverse.antt =====
-- `fs_dirent_lookup` and `fs_dirent_traverse` of `basekernel/kernel/fs.c`: the way along a path, and the
-- references to the directory entries on it. A `struct fs_dirent` is known by its number; the lookup of
-- a name by a file system is a parameter.
use stage_os.Base.{
  ℕ, suc, ◌+◌, ◌-◌, Bool, false, Option, none, some, List, [], ◌∷◌, ◌==◌, if◌then◌else◌, length,
}
use stage_os.Strings.Tokens.{tokens}

-- The structures that were made, those below `count`: what each stands for, and its references
pub record Dirents (N : Type 0) : Type 0 where
  pub entry : ℕ → N
  pub refs : ℕ → ℕ
  pub count : ℕ

-- The name is ".".
abbrev pub is_dot : List ℕ → Bool
is_dot [] = false
is_dot (c ∷ []) = c == b'.'
is_dot (c ∷ d ∷ s) = false

module _ {N : Type 0} (find : N → List ℕ → Option N) where
  -- `fs_dirent_addref`
  abbrev pub dirent_addref : Dirents N → ℕ → Dirents N
  dirent_addref s d = record s { refs = λ i. if i == d then suc (s.refs i) else s.refs i }

  -- The counting of `fs_dirent_close`
  abbrev pub dirent_close : Dirents N → ℕ → Dirents N
  dirent_close s d = record s { refs = λ i. if i == d then s.refs i - 1 else s.refs i }

  -- A new structure with one reference, as `diskfs_dirent_create` makes it
  abbrev pub made : Dirents N → N → Dirents N
  made s n = record {
    entry = λ i. if i == s.count then n else s.entry i;
    refs = λ i. if i == s.count then 1 else s.refs i;
    count = s.count + 1;
  }

  -- `fs_dirent_lookup`
  unfoldable pub lookup : Dirents N → ℕ → List ℕ → Option ℕ × Dirents N
  lookup s d name =
      if is_dot name
      then (some d, dirent_addref s d)
      else elim (find (s.entry d) name) [ none ↦ (none, s) | some n ↦ (some s.count, made s n) ]

  -- The loop of `fs_dirent_traverse` over the words of the path, from `d` on
  unfoldable pub walk : (parent d : ℕ) → List (List ℕ) → Dirents N → Option ℕ × Dirents N
  walk parent d [] s = (some d, s)
  walk parent d (name ∷ names) s =
      let r = lookup s d name in
      let s' = (if d == parent then r.1 else dirent_close r.1 d) in
      elim r.0 [ none ↦ (none, s') | some n ↦ walk parent n names s' ]

  -- `fs_dirent_traverse`
  unfoldable pub traverse : (parent : ℕ) → (path : List ℕ) → Dirents N → Option ℕ × Dirents N
  unfolding walk
  traverse parent path s = walk parent parent (tokens (length path + 1) (b'/' ∷ []) path) s
