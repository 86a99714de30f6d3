-- ===== src/Review/Validate/Limit/Conserved.antt =====
-- No finding is lost and none is settled twice.
use Prim.Native.String.{String}
use inryeok_bot.Review.Finding.{Finding}
