-- ===== src/Service/Publish/Delivered.antt =====
-- v2_service.ts and timeline-transfer.ts: what is published is what the web app's assembler gives.
use remote_pi.Base.Equality.{string_eq}
use remote_pi.Transfer.Assembler.{Assembler}
