-- ===== src/Gateway.antt =====
-- services/api-gateway: the routes, the handlers and the middleware of the HTTP gateway. The modules
-- of gin that parse a request and print an answer are left out: a request is given with its path
-- split, its query and its body decoded, and an answer is the value that is printed.
pub mod Http
pub mod Fields
pub mod Binding
pub mod Auth
pub mod Users
pub mod Workspaces
pub mod Datasets
pub mod Jobs
pub mod Routes
pub mod Router
pub mod Serve
pub mod Tokens
pub mod Unauthorized
pub mod Theirs
pub mod Owners
pub mod Session
