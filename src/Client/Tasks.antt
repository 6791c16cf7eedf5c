-- ===== src/Client/Tasks.antt =====
-- src/client/mod.rs: what the client tells the server about itself, and the loop over the tasks
-- that the server sends. The handler's channel is a parameter: a send changes the world and is `Ok`
-- or not.
pub mod Delivery
use verfploeter.Prelude.{
  List, [], ◌∷◌, Option, none, some, String, Bool, Default, Outcome, value, panic, ◌>>=◌,
  if◌then◌else◌,
}
use verfploeter.Schema.Metadata
use verfploeter.Schema.Metadata.{Metadata}
use verfploeter.Schema.Task
use verfploeter.Schema.Task.{Task}

module _ {U : Type 0} ⦃u : Default U⦄ where
  -- `version` is the crate's version at the build.
  unfoldable pub client_metadata : String → String → Metadata U
  client_metadata client_hostname version =
      Metadata.set_version version (Metadata.set_hostname client_hostname Metadata.new)

module _ {U : Type 0} ⦃u : Default U⦄ {W : Type 0} (send : Task U → W → W × Bool) where
  -- The closure of `for_each`: a ping task goes to the handler.
  unfoldable pub forward_task : Task U → W → Outcome W
  forward_task task world =
      if Task.has_ping task
      then (let (world', delivered) = send task world in if delivered then value world' else panic)
      else value world

  -- `stream.for_each`: an error of the stream, `none`, ends it.
  unfoldable pub forward_tasks : List (Option (Task U)) → W → Outcome W
  forward_tasks [] world = value world
  forward_tasks (none ∷ items) world = value world
  forward_tasks (some task ∷ items) world = do
    world' ← forward_task task world
    forward_tasks items world'
