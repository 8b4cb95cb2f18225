-- ===== src/Admin/Rows.antt =====
-- What the methods of the admin service share: writes that count their rows, and the ids that the
-- database and google/uuid generate.
use nebraska.Base.{ℕ, String, eqb, if◌then◌else◌}
use nebraska.Base.Exec.{pure, raise, ◌>>=◌}
use nebraska.Types.{no_rows_affected}
use nebraska.Db.{World, Action, exec_rows}

-- The next id of a table with uuids, the next one that `uuid.New` draws, and the next number of
-- package_file, as functions of everything there is.
pub record Generators : Type 0 where
  pub row_id : World → String
  pub new_uuid : World → String
  pub file_id : World → ℕ

-- `rowsAffected == 0`.
unfoldable pub some_row : ℕ → Action Unit
some_row n = if eqb n 0 then raise no_rows_affected else pure tt

unfoldable pub exec_some : (World → ℕ × World) → Action Unit
unfolding some_row
exec_some f = do n ← exec_rows f; some_row n
