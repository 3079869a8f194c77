-- ===== src/Tests.antt =====
-- Runs on concrete inputs, and the theorems applied to them.
mod Kernel
mod UriRuns
mod UriClaims
mod TextClaims
mod HeaderClaims
mod ContentClaims
mod RespClaims
mod ConnClaims
mod PoolClaims
mod ServerRun
mod ServerClaims
mod AnswerClaims
mod LoopClaims
mod RequestData
mod RequestClaims
mod ChunkClaims
mod TransportClaims
