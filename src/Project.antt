-- ===== src/Project.antt =====
-- networkmapper/project/models.py and serializer.py: a project and its payload. The part of a project that
-- is not persisted (the observations and what is resolved from them) is left out. The text of the
-- payload is json's, and a `datetime` is its ISO text.
pub mod Saving
pub mod Loading
mod Services
mod RoundTrip
mod Tests
use network_mapper.Graph.{NetworkGraph}
use network_mapper.Prelude.Text.{Text}

-- `Project`, what is persisted of it.
pub record Project : Type 0 where
  pub customer_name : Text
  pub created_date : Text
  pub modified_date : Text
  pub network_graph : NetworkGraph
