-- ===== src/Embeddings/Laws.antt =====
-- What the call of the embedding server and the job leave in the tables.
use trekr_go.Prelude.{
  some, ℕ, String, Option, [], ◌∷◌, ◌++◌, ◌≡◌, List, ◌⊎◌, nat_instance, string_instance,
}
use trekr_go.Models.{AiRequest}
use trekr_go.Store.{Engine, State, create, ai_requests}
use trekr_go.Sql.{DbError, Result, err}
use trekr_go.Embeddings.{succeeded}

-- A row of the log for a call of the feature by the user, with its duration and its success.
pub record IsLogRow (feature : String) (user_id : Option ℕ) (ms : ℕ) (r : Result (List ℕ))
    (row : AiRequest) : Type 0 where
  pub of_feature : row.feature ≡ feature
  pub of_model : row.model ≡ "nomic-embed-text"
  pub of_user : row.user_id ≡ user_id
  pub latency : row.latency_ms ≡ some ms
  pub success : row.success ≡ succeeded r

module _ {W : Type 0} (E : Engine W) where
  -- The log has one row more, of this call; or the insert of such a row was tried, and failed.
  abbrev pub IsLogged : String → Option ℕ → ℕ → Result (List ℕ) → State W → State W → Type 0
  IsLogged feature user_id ms r s after =
      ((row : AiRequest) × IsLogRow feature user_id ms r row
        × (after.tables ≡ record s.tables { ai_requests = s.tables.ai_requests ++ row ∷ [] }))
      ⊎ ((row : AiRequest) × (e : DbError) × IsLogRow feature user_id ms r row
          × ((create (ai_requests E) row s).0 ≡ err e)
          × (after.tables ≡ s.tables))
