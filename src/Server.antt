-- ===== src/Server.antt =====
-- all/messagehandler.cpp, all/socketrole.h and all/stunauth.h: `CStunRequestHandler`, which answers
-- a request that was parsed.
pub mod Roles
pub mod Auth
pub mod Handler
pub mod Drafts
pub mod Expected
pub mod Responses
pub mod Understood
pub mod Errors
pub mod Rules
pub mod Sockets
pub mod Access
pub mod Ready
pub mod Stages
pub mod Answers
pub mod Binding
pub mod Open
