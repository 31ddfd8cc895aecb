-- ===== src/World.antt =====
-- The state that the services share: the rows of the database (prisma/schema.prisma, written by the
-- calls of the Prisma client in src/services), the records in Redis and the job queues, with the
-- way in which an operation reads and writes them, and the services that the program only calls.
mod Rows
mod Monad
mod Services
pub use Rows.*
pub use Monad.*
pub use Services.*
