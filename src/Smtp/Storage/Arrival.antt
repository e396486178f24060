-- ===== src/Smtp/Storage/Arrival.antt =====
-- Who learns of a message that was stored.
use yunt.Domain.Message.{Message}
