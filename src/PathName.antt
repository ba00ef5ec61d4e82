-- ===== src/PathName.antt =====
-- fs/fs.c: `path_parse` and `path_depth_cnt` over flat memory.
-- A loop that runs to the end of the path takes fuel.
pub mod Parse
mod Tests
use seeking_os.Prelude.{
  ℕ, zero, suc, ◌+◌, Bool, true, false, not, ◌&&◌, Option, none, some, Memory, store, Outcome, ok,
  out_of_fuel, assert, ◌>>=◌, ◌>>◌, ◌==◌, if◌then◌else◌, add32,
}
use seeking_os.Str.{fill}

abbrev pub max_filename_len : ℕ
max_filename_len = 16

-- `while (*(++path_name) == '/');` from the address that is looked at next
unfoldable pub skip_slashes : ℕ → Memory → ℕ → Outcome ℕ
skip_slashes zero m p = out_of_fuel
skip_slashes (suc n) m p = let rest = skip_slashes n m (p + 1) in if m p == b'/' then rest else ok p

-- `while (*path_name != '/' && *path_name != 0) *(name_store++) = *(path_name++);`
unfoldable pub copy_name : ℕ → Memory → ℕ → ℕ → Outcome (ℕ × Memory)
copy_name zero m p name = out_of_fuel
copy_name (suc n) m p name =
    let rest = copy_name n (store m name (m p)) (p + 1) (name + 1) in
    if not (m p == b'/') && not (m p == 0) then rest else ok (p, m)

-- The rest of the path, with `none` for NULL, and the memory
unfoldable pub path_parse : ℕ → Memory → ℕ → ℕ → Outcome (Option ℕ × Memory)
path_parse n m path_name name_store = do
  start ← if m path_name == b'/' then skip_slashes n m (path_name + 1) else ok path_name
  (end, m') ← copy_name n m start name_store
  ok ((if m' end == 0 then none else some end), m')

-- `if (p) p = path_parse(p, name);`
unfoldable pub next_name : ℕ → Memory → Option ℕ → ℕ → Outcome (Option ℕ × Memory)
next_name n m none name = ok (none, m)
next_name n m (some p) name = path_parse n m p name

-- The loop of `path_depth_cnt`; the first fuel is for its rounds, the second for those of `path_parse`.
unfoldable pub depth_from : ℕ → ℕ → Memory → Option ℕ → ℕ → ℕ → Outcome ℕ
depth_from zero n m p name depth = out_of_fuel
depth_from (suc rounds) n m p name depth =
    let cleared = fill m name 0 max_filename_len in
    let rest = next_name n cleared p name >>= λ next.
    depth_from rounds n next.1 next.0 name (add32 depth 1) in
    if m name == 0 then ok depth else rest

-- `name` is the address of the local array, whose bytes are what the stack held.
unfoldable pub path_depth_cnt : ℕ → ℕ → Memory → ℕ → ℕ → Outcome ℕ
path_depth_cnt rounds n m path_name name = do
  assert (not (path_name == 0))
  (p, m') ← path_parse n m path_name name
  depth_from rounds n m' p name 0
