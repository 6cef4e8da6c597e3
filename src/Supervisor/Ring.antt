-- ===== src/Supervisor/Ring.antt =====
-- internal/supervisor/ring.go: the tail of what a managed process printed.
pub mod Tail
use atenea.Prelude.Str.{Str, trim_space}
use atenea.Prelude.{ℕ, ◌-◌, ltb, List, [], ◌++◌, length, drop, if◌then◌else◌}

pub record Ring : Type 0 where
  pub buf : List ℕ
  pub limit : ℕ

-- `outputLimit`
abbrev pub output_limit : ℕ
output_limit = 8192

abbrev pub new_ring : ℕ → Ring
new_ring limit = record { buf = []; limit = limit }

-- `Write`, which reports that all of `p` was written. `over` is not positive where it is 0 here.
unfoldable pub write : Ring → List ℕ → Ring × ℕ
write r p =
    let grown = r.buf ++ p in
    let over = length grown - r.limit in
    (record r { buf = if ltb 0 over then drop over grown else grown }, length p)

-- `String`
unfoldable pub ring_string : Ring → Str
ring_string r = trim_space r.buf
